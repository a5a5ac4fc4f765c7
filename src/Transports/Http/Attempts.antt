-- ===== src/Transports/Http/Attempts.antt =====
-- How often a request is sent, and how long the transport waits in between.
use httpxp.Prelude.{
  Bool, Bool-cases, Option, arith, false, inl, inr, refl, some, suc, true, zero, ℕ, ◌+◌, ◌-◌, ◌<◌,
  ◌==◌, ◌^◌, ◌≡◌, ◌≤◌, ◌⊎◌, nat_eq,
}
use httpxp.Exceptions.Result.{Result, ok, err}
use httpxp.Client.Exec.{M}
use httpxp.Dict.{Dict}
use httpxp.Transports.Http.{
  arguments, HttpRequest, handle_request, sent, Body, OptionValue, attempts, is_connect, pause,
  tried,
}

-- `tries` counts the calls of the native client, and `waited` the halves of a second.
pub record IsCounted {W N : Type 0} (send : Body → Dict OptionValue → M W N) (sleep : ℕ → W → W)
    (tries waited : W → ℕ) : Type 0 where
  pub send_tries : (b : Body) (o : Dict OptionValue) (w : W) → tries (send b o w).1 ≡ tries w + 1
  pub send_waited : (b : Body) (o : Dict OptionValue) (w : W) → waited (send b o w).1 ≡ waited w
  pub sleep_tries : (d : ℕ) (w : W) → tries (sleep d w) ≡ tries w
  pub sleep_waited : (d : ℕ) (w : W) → waited (sleep d w) ≡ waited w + d

abbrev IsFinal : {N : Type 0} → Bool → Result N → Type 0
IsFinal is_last (ok n) = Unit
IsFinal is_last (err e) = (is_connect e ≡ false) ⊎ (is_last ≡ true)

pow_step : (k : ℕ) → 2 ^ (suc (suc k) + 1 - 2) ≡ 2 ^ (suc (suc k) - 2) + 2 ^ (suc (suc k) - 2)
pow_step k =
    let more : suc (suc k) + 1 - 2 ≡ suc k = omega arith in
    let less : suc (suc k) - 2 ≡ k = omega arith in rw (more, less) (omega arith)

module _ {W N : Type 0} (send : Body → Dict OptionValue → M W N) (sleep : ℕ → W → W)
    (tries waited : W → ℕ) (c : IsCounted send sleep tries waited) (retries : ℕ) where
  -- What `n` attempts have come to, behind the given counts.
  pub record Tried (t s n : ℕ) (r : Result N) (w : W) : Type 0 where
    pub some_tried : 0 < n
    pub within : n ≤ retries + 1
    pub counted : tries w ≡ t + n
    pub paused : waited w + 1 ≡ s + 2 ^ (n - 2)
    pub final : IsFinal (n == retries + 1) r

  abbrev pub Ends : ℕ → ℕ → Option (Result N × W) → Type 0
  Ends t s o = (r : Result N) × (w : W) × (n : ℕ) × (o ≡ some (r, w)) × Tried t s n r w

  pause_tries : (attempt : ℕ) (w : W) → tries (pause send sleep retries attempt w) ≡ tries w
  unfolding pause
  pause_tries attempt w = ground (arith, c.sleep_tries (2 ^ (attempt - 2)) w)

  pause_waited :
      (attempt : ℕ) (w : W)
      → waited (pause send sleep retries attempt w) + 2 ^ (attempt - 2)
        ≡ waited w + 2 ^ (attempt + 1 - 2)
  unfolding pause
  pause_waited zero w = refl
  pause_waited (suc zero) w = refl
  pause_waited (suc (suc k)) w =
      ground (arith, c.sleep_waited (2 ^ (suc (suc k) - 2)) w, pow_step k)

  tried-Ends :
      (again : W → Option (Result N × W)) (t s attempt : ℕ) (r : Result N) (w : W)
      → attempt ≤ retries
      → tries w ≡ t + (attempt + 1)
      → waited w + 1 ≡ s + 2 ^ (attempt + 1 - 2)
      → (attempt < retries → Ends t s (again w))
      → Ends t s (tried send sleep retries again attempt (r, w))
  unfolding tried
  tried-Ends again t s attempt (ok native) w l a b h = (
    ok native,
    w,
    attempt + 1,
    refl,
    record { some_tried = omega arith; within = omega arith; counted = a; paused = b; final = tt },
  )
  tried-Ends again t s attempt (err e) w l a b h = elim (Bool-cases (is_connect e)) [
    | inr other ↦ simp other (
      err e,
      w,
      attempt + 1,
      refl,
      record {
        some_tried = omega arith;
        within = omega arith;
        counted = a;
        paused = b;
        final = inl other;
      },
    )
    | inl connect ↦ elim (Bool-cases (attempt == retries)) [
      | inl last ↦
          simp (connect, last)
            (
              err e,
              w,
              attempt + 1,
              refl,
              record {
                some_tried = omega arith;
                within = omega arith;
                counted = a;
                paused = b;
                final = inr (ground (arith, last));
              },
            )
      | inr more ↦ simp (connect, more) (h (ground (arith, more)))
    ]
  ]

  attempts-Ends :
      (body : Body) (options : Dict OptionValue) (t s left attempt : ℕ) (w : W)
      → attempt + left ≡ retries
      → tries w ≡ t + attempt
      → waited w + 1 ≡ s + 2 ^ (attempt - 2)
      → Ends t s (attempts send sleep retries body options (suc left) attempt w)
  unfolding attempts
  attempts-Ends body options t s zero attempt w e a b =
      let v = pause send sleep retries attempt w in
      tried-Ends (attempts send sleep retries body options zero (attempt + 1)) t s attempt
        (send body options v).0 (send body options v).1 (omega arith)
        (omega (arith, c.send_tries body options v, pause_tries attempt w))
        (omega (arith, c.send_waited body options v, pause_waited attempt w))
        (λ l. absurd (omega arith))
  attempts-Ends body options t s (suc left) attempt w e a b =
      let v = pause send sleep retries attempt w in
      tried-Ends (attempts send sleep retries body options (suc left) (attempt + 1)) t s attempt
        (send body options v).0 (send body options v).1 (omega arith)
        (omega (arith, c.send_tries body options v, pause_tries attempt w))
        (omega (arith, c.send_waited body options v, pause_waited attempt w))
        (λ l.
          attempts-Ends body options t s left (attempt + 1) (send body options v).1 (omega arith)
            (omega (arith, c.send_tries body options v, pause_tries attempt w))
            (omega (arith, c.send_waited body options v, pause_waited attempt w)))

  -- An argument that is refused is raised before anything is sent; otherwise the loop ends.
  abbrev pub Handled : Result (Body × Dict OptionValue) → W → Option (Result N × W) → Type 0
  Handled (err e) w o = o ≡ some (err e, w)
  Handled (ok _) w o = Ends (tries w) (waited w) o

  sent-Handled :
      (a : Result (Body × Dict OptionValue)) (w : W) → Handled a w (sent send sleep retries a w)
  unfolding sent
  sent-Handled (err e) w = refl
  sent-Handled (ok (body, options)) w =
      let e : retries + 1 ≡ suc retries = omega arith in
      rw e (
        attempts-Ends body options (tries w) (waited w) retries 0 w (omega arith) (omega arith)
          (omega arith))

  -- Whatever the native client does, a request ends: an exception of its arguments is raised with
  -- nothing sent; otherwise it is sent at least once and at most once more than there are retries,
  -- an exception is raised only if it is no failure to connect or the attempt was the last, and
  -- behind `n` attempts the transport has waited 2 ^ (n - 2) - 1 halves of a second, so not at all
  -- before the second attempt.
  pub handle_request-Handled :
      (r : HttpRequest) (w : W) → Handled (arguments r) w (handle_request send sleep retries r w)
  unfolding handle_request
  handle_request-Handled r w = sent-Handled (arguments r) w
