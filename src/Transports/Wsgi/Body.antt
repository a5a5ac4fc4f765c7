-- ===== src/Transports/Wsgi/Body.antt =====
-- The iteration of a WSGI result behind its leading empty chunks.
use httpxp.Prelude.{All, List, Option, [], ap, refl, some, subst, ◌++◌, ◌∙◌, ◌∷◌, ◌≡◌}
use httpxp.Exceptions.Result.{ok-inj, ok}
use httpxp.Transports.Wsgi.{
  StartResponse, Step, last_call, raises, skip_leading_empty_chunks, starts, yields,
}

-- a step that gives nothing
abbrev pub IsSilent : Step → Type 0
IsSilent (yields []) = Unit
IsSilent (yields (_ ∷ _)) = ⊥
IsSilent (starts _) = Unit
IsSilent (raises _) = ⊥

-- nothing, or a chunk that is not empty
abbrev pub Begins : List Step → Type 0
Begins [] = Unit
Begins (yields [] ∷ _) = ⊥
Begins (yields (_ ∷ _) ∷ _) = Unit
Begins (starts _ ∷ _) = ⊥
Begins (raises _ ∷ _) = ⊥

abbrev pub calls_of : List Step → List StartResponse
calls_of [] = []
calls_of (starts call ∷ steps) = call ∷ calls_of steps
calls_of (_ ∷ steps) = calls_of steps

-- What is taken from the front of an iteration.
pub record IsSkipped (seen : Option StartResponse) (steps : List Step)
    (o : Option StartResponse × List Step) : Type 0 where
  pub before : List Step
  pub whole : steps ≡ before ++ o.1
  pub silent : All IsSilent before
  pub begins : Begins o.1
  pub last : o.0 ≡ last_call seen (calls_of before)

onto :
    (s : Step) (seen now : Option StartResponse) (steps : List Step)
    (o : Option StartResponse × List Step)
    → IsSilent s
    → ((l : List Step) → last_call now (calls_of l) ≡ last_call seen (calls_of (s ∷ l)))
    → IsSkipped now steps o
    → IsSkipped seen (s ∷ steps) o
onto s seen now steps o i e h = record {
  before = s ∷ h.before;
  whole = ap (λ l. s ∷ l) h.whole;
  silent = (i, h.silent);
  begins = h.begins;
  last = h.last ∙ e h.before;
}

-- What is skipped is a part of the iteration's front without a chunk that holds anything; what is left
-- begins with such a chunk or is nothing, so no byte is lost; and the call of `start_response`
-- that counts is the last one that was made before or in the skipped part.
pub skip_leading_empty_chunks-IsSkipped :
    (seen : Option StartResponse) (steps : List Step) (o : Option StartResponse × List Step)
    → skip_leading_empty_chunks seen steps ≡ ok o
    → IsSkipped seen steps o
unfolding skip_leading_empty_chunks last_call
skip_leading_empty_chunks-IsSkipped seen [] o e =
    subst (λ p. IsSkipped seen [] p) (ok-inj e)
      (record { before = []; whole = refl; silent = tt; begins = tt; last = refl })
skip_leading_empty_chunks-IsSkipped seen (yields [] ∷ steps) o e =
    onto (yields []) seen seen steps o tt (λ l. refl)
      (skip_leading_empty_chunks-IsSkipped seen steps o e)
skip_leading_empty_chunks-IsSkipped seen (yields (c ∷ chunk) ∷ steps) o e =
    subst (λ p. IsSkipped seen (yields (c ∷ chunk) ∷ steps) p) (ok-inj e)
      (record { before = []; whole = refl; silent = tt; begins = tt; last = refl })
skip_leading_empty_chunks-IsSkipped seen (starts call ∷ steps) o e =
    onto (starts call) seen (some call) steps o tt (λ l. refl)
      (skip_leading_empty_chunks-IsSkipped (some call) steps o e)
skip_leading_empty_chunks-IsSkipped seen (raises x ∷ steps) o e = absurd (cc e)
