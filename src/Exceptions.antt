-- ===== src/Exceptions.antt =====
-- httpxp/_exceptions.py: the exception classes with their bases, and the built-in classes that the
-- program raises or catches. A message is not modelled: an exception is its class.
pub mod Result
use httpxp.Prelude.{Option, none, some}

pub data Exception : Type 0 where
  base_exception exception runtime_error value_error type_error key_error index_error
        attribute_error :
      Exception
  not_implemented_error stop_iteration assertion_error unicode_error : Exception
  http_error request_error transport_error : Exception
  timeout_exception connect_timeout read_timeout write_timeout pool_timeout : Exception
  network_error read_error write_error connect_error close_error : Exception
  proxy_error unsupported_protocol : Exception
  protocol_error local_protocol_error remote_protocol_error : Exception
  decoding_error too_many_redirects http_status_error invalid_url cookie_conflict : Exception
  stream_error stream_consumed stream_closed response_not_read request_not_read : Exception

-- the class in brackets behind the name of a class
unfoldable pub base : Exception → Option Exception
base base_exception = none
base exception = some base_exception
base runtime_error = some exception
base value_error = some exception
base type_error = some exception
base key_error = some exception
base index_error = some exception
base attribute_error = some exception
base not_implemented_error = some runtime_error
base stop_iteration = some exception
base assertion_error = some exception
base unicode_error = some value_error
base http_error = some exception
base request_error = some http_error
base transport_error = some request_error
base timeout_exception = some transport_error
base connect_timeout = some timeout_exception
base read_timeout = some timeout_exception
base write_timeout = some timeout_exception
base pool_timeout = some timeout_exception
base network_error = some transport_error
base read_error = some network_error
base write_error = some network_error
base connect_error = some network_error
base close_error = some network_error
base proxy_error = some transport_error
base unsupported_protocol = some transport_error
base protocol_error = some transport_error
base local_protocol_error = some protocol_error
base remote_protocol_error = some protocol_error
base decoding_error = some request_error
base too_many_redirects = some request_error
base http_status_error = some http_error
base invalid_url = some exception
base cookie_conflict = some exception
base stream_error = some runtime_error
base stream_consumed = some stream_error
base stream_closed = some stream_error
base response_not_read = some stream_error
base request_not_read = some stream_error
