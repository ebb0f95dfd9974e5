-- ===== src/Labels/Callers.antt =====
-- src/teammate_mcp/server.py and session_identity.py: who a request is from.
use teammate_mcp.Base.{
  leb, Bool-cases, contains, option_eq, nat_eq, text_eq, length, all, ◌≤◌, ◌≡◌, refl, ◌⊎◌, inl, inr,
  true, false, ◌&&◌, none, some, [], ◌∷◌, arith,
}
use teammate_mcp.Base.Text.{Text}
use teammate_mcp.Registry.{rec_eq, Registry, nonempty}
use teammate_mcp.Labels.{
  Caller, caller_label, is_id_char, is_id_start, is_thread_id, request_identity,
}

-- While a request carries a thread id, the caller's label is a function of the registry and that
-- id alone: nothing of the shared process's environment can lend it another session's label.
pub caller_label_isolated :
    (d : Registry) (c c' : Caller) (t : Text)
    → c.request_thread ≡ some t
    → c'.request_thread ≡ some t
    → nonempty t ≡ true
    → caller_label d c ≡ caller_label d c'
unfolding caller_label
caller_label_isolated d c c' t e e' n = ground (arith, e, e', n)

all_id-no_slash : (s : Text) → all is_id_char s ≡ true → contains s b'/' ≡ false
unfolding nat_eq
all_id-no_slash [] h = refl
all_id-no_slash (c ∷ s) h = ground (arith, all_id-no_slash s)

-- A thread id that a request may carry is not empty, at most 101 characters long, and holds no
-- path separator; any other value is refused before the identity is set.
pub request_identity_safe :
    (t : Text)
    → (request_identity (some t) ≡ some (some t))
        × (nonempty t ≡ true)
        × (length t ≤ 101)
        × (contains t b'/' ≡ false)
      ⊎ ((request_identity (some t) ≡ none) × (is_thread_id t ≡ false))
unfolding request_identity is_thread_id nat_eq
request_identity_safe [] = inr (refl, refl)
request_identity_safe (c ∷ s) =
    elim (Bool-cases (is_id_start c && all is_id_char s && leb (length s) 100)) [
      | inl e ↦
          inl (ground (arith, e), refl, ground (arith, e), ground (arith, e, all_id-no_slash s))
      | inr e ↦ inr (ground (arith, e), e)
    ]
