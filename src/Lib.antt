-- ===== src/Lib.antt =====
-- httpxp, an HTTP client in Python: models of its core in httpxp/, and what is proved of them.
--
-- The program. `Client` sends a request: the authentication flow may send it again, and each of
-- these requests may be redirected, through the transport that the proxies choose. A request has a
-- `URL`, which httpxp/_urlparse.py parses and normalises, and `Headers`, and may have a multipart form
-- as its body; a redirect makes the next request from both. A `Response` reads its stream once,
-- through a content decoder, and cuts it into chunks or lines. `QueryParams` is a dictionary of
-- lists, and `Cookies` keeps cookies by domain, path and name.
--
-- The parts, the code they model and their state:
--   Prelude      Python's text and bytes as lists of numbers with the methods that the code calls,
--                and the lemmas and tests that the parts share. Lower case is that of ASCII.
--   StatusCodes  httpxp/_status_codes.py: the classes of codes.
--   Dict         Python's dictionary as an association list in order of insertion.
--   Exceptions   httpxp/_exceptions.py: an exception is its class. Results are `ok` or `err`.
--   Codec        The encodings ASCII, UTF-8 and ISO-8859-1 of Python.
--   Utils        httpxp/_utils.py: `primitive_value_to_str`.
--   Config       httpxp/_config.py: `Timeout`, `Limits` and `Proxy`.
--   UrlParse     httpxp/_urlparse.py: the safe sets in Chars, the regular expressions in Regex as
--                scans from left to right, `encode_host` in Host, `normalize_port` in Port,
--                `validate_path` and `normalize_path` in Path, `quote` in Quote, and `urlparse` with
--                `ParseResult` in Parse.
--   Urls         httpxp/_urls.py: `URL` in Urls/Url.antt as a parse result, with its properties in
--                Urls/Url/Parts.antt, and `QueryParams` in Urls/QueryParams.antt.
--   Models       httpxp/_models.py: `Headers`, where Entries holds the list and its loops, Views holds
--                `items` and the like, and a method is an action on the object, as reading the
--                encoding stores it; in Response the reading of a body, where a generator method
--                takes the body of the loop over it; `Request`, whose `_prepare` is an action on its
--                headers; and `Cookies` over nested dictionaries.
--   Decoders     httpxp/_decoders.py: `ByteChunker` and `TextChunker` in Chunker, `LineDecoder` in
--                Lines, and the decoders of a Content-Encoding in Content.
--   Multipart    httpxp/_multipart.py: the fields of a form and the stream that they make.
--   Content      httpxp/_content.py: the headers and the stream of a body.
--   Proxies      `URLPattern` and `get_environment_proxies` of httpxp/_utils.py, and the mounts and
--                `_transport_for_url` of httpxp/_client.py.
--   Auth         httpxp/_auth.py: the flows, with the challenge of a server in Parse and the header
--                that answers it in Header.
--   Client       httpxp/_client.py: the tests of an origin in Origin, the next request in Redirect,
--                the loop of `_send_handling_redirects` in Send, `_send_handling_auth` and `send` in
--                Authenticated, the merging of the arguments of a call in Merging, `__enter__`,
--                `__exit__` and `close` with the state of the client in Lifecycle, and `request`,
--                `stream` and the methods of the verbs in Calls. Exec is the monad of these: actions
--                on an outside world that return or raise.
--   Api          httpxp/_api.py: each function makes a client, enters it, calls it and leaves it.
--   Transports   httpxp/_transports/asgi.py in Asgi: the application is a tree of its calls of
--                `receive` and `send`, run on the variables of `handle_async_request`;
--                wsgi.py in Wsgi: a run of the application is its calls of `start_response` and the
--                steps of its iteration; and `HTTPTransport.handle_request` of default.py in Http,
--                whose waits are counted in halves of a second.
--   WebSocket    httpxp/_websocket.py: messages, payloads and the synchronous `WebSocket` over its
--                native socket, and `connect` and `websocket` in Connect.
--
-- Parameters. `ipaddress`, `idna`, `int`, `urllib.parse.parse_qs`, `unquote` and `urljoin`, the
-- functions of hashlib, base64, netrc and mimetypes, `time.ctime` and the random bytes are
-- arguments, and so are the decompressors of zlib, brotli and zstandard, whose objects are of any
-- type. The hooks, the transport, the streams and the part of the constructor of `Request` that
-- reads the cookie store and encodes a body are actions on an outside world of any type; so are the
-- calls of the native client, of a native socket and of the transports' own methods, and
-- `build_request` and `send` where they are called by `request`. The stream of a `Response` is its
-- parts, with what its iteration and its closing end with. WSGI and ASGI applications are any run
-- or tree of calls. Decoding a host with `idna` may raise, and so may all that reads `URL.host`.
--
-- Fuel. The chunks of a content are cut with its length as fuel, each chunk taking at least one
-- element. The digits of a number are written with the number and one as fuel. The redirect loop
-- has a round of fuel for each redirect that the limit leaves, and two more. The loop over an
-- authentication flow has two rounds, as a flow of the library sends two requests at most. The loop
-- over the frames of zstandard has the length of what the decompressor has left. The attempts of a
-- transport are as many as the range in the source has. The iteration over the messages of a socket
-- has a number of messages as its argument. The run of an ASGI application ends as its tree does;
-- where it waits for an event that nothing sets, there is no result.
--
-- Not modelled: the `params` of a request, the constructor of a response, the text and the lines of
-- a response, the extraction of cookies from a response, an authentication with a flow of the user,
-- the native transport, its options and its streams, the iteration of a WSGI body behind its first
-- chunk, the mock transport, the asynchronous client, transport and WebSocket, the command line,
-- and that a file field writes its type into the dictionary of headers that the caller gave. A loop
-- over a body runs to its end or to an exception; one that is left before is not modelled. The
-- messages of exceptions are left out. An object that is only handed on stands as a number.
pub mod Prelude
pub mod Dict
pub mod Client
pub mod Decoders
pub mod Models
pub mod Codec
pub mod Utils
pub mod Urls
pub mod Exceptions
pub mod UrlParse
pub mod StatusCodes
pub mod Multipart
pub mod Auth
pub mod Config
pub mod Content
pub mod Proxies
pub mod Transports
pub mod WebSocket
pub mod Api
