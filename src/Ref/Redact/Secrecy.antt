-- ===== src/Ref/Redact/Secrecy.antt =====
-- status.go: the redacted forms of refs that differ in their sensitive options.
use mamori.Prelude.{
  ◌≡◌, refl, ap, true, false, List, [], ◌∷◌, Text, length, if◌then◌else◌, arith, get, is_empty,
  str_eq, str_eq_iff, subst, Bool-cases, inl, inr,
}
use mamori.Strings.Url.{Values}
use mamori.Ref.{Ref}
use mamori.Ref.Redact.{
  redacted, is_sensitive, redact_values, redact_keys, keys_of, values_at, assemble, sort_strings,
}

-- Two lists of values of option `k` that an outsider may not tell apart: as many values of a
-- sensitive option, the same values of any other.
abbrev pub SameValues : Text → List Text → List Text → Type 0
SameValues k vs ws = if is_sensitive k then length vs ≡ length ws else vs ≡ ws

-- The same options in the same order, with values that an outsider may not tell apart.
abbrev pub SameOpts : Values → Values → Type 0
SameOpts [] [] = Unit
SameOpts ((k, vs) ∷ m) ((j, ws) ∷ n) = (k ≡ j) × SameValues k vs ws × SameOpts m n
SameOpts _ _ = ⊥

redact_values-sensitive :
    (k : Text) (vs ws : List Text) (b : Text)
    → is_sensitive k ≡ true
    → length vs ≡ length ws
    → redact_values k vs b ≡ redact_values k ws b
unfolding redact_values
redact_values-sensitive k [] [] b s h = refl
redact_values-sensitive k [] (w ∷ ws) b s h = absurd (omega arith)
redact_values-sensitive k (v ∷ vs) [] b s h = absurd (omega arith)
redact_values-sensitive k (v ∷ vs) (w ∷ ws) b s h =
    rw (s, redact_values-sensitive k vs ws _ s (omega arith))

redact_values-SameValues :
    (k : Text) (vs ws : List Text) (b : Text)
    → SameValues k vs ws
    → redact_values k vs b ≡ redact_values k ws b
redact_values-SameValues k vs ws b h = elim (Bool-cases (is_sensitive k)) [
  | inl s ↦ redact_values-sensitive k vs ws b s (rw s at h)
  | inr s ↦ ap (λ (l : List Text). redact_values k l b) (rw s at h)
]

SameOpts-get :
    (m n : Values) (k : Text)
    → SameOpts m n
    → SameValues k (values_at (get m k)) (values_at (get n k))
unfolding get values_at
SameOpts-get [] [] k h = elim (Bool-cases (is_sensitive k)) [ inl s ↦ rw s | inr s ↦ rw s ]
SameOpts-get [] (y ∷ n) k h = absurd h
SameOpts-get (x ∷ m) [] k h = absurd h
SameOpts-get ((i, vs) ∷ m) ((j, ws) ∷ n) k (e, here, rest) = elim (Bool-cases (str_eq i k)) [
  | inl same ↦
      let at_k : SameValues k vs ws =
        subst (λ (t : Text). SameValues t vs ws) ((str_eq_iff i k).0 same) here in
      rw (← e, same) at_k
  | inr other ↦ rw (← e, other) (SameOpts-get m n k rest)
]

SameOpts-keys_of : (m n : Values) → SameOpts m n → keys_of m ≡ keys_of n
unfolding keys_of
SameOpts-keys_of [] [] h = refl
SameOpts-keys_of [] (y ∷ n) h = absurd h
SameOpts-keys_of (x ∷ m) [] h = absurd h
SameOpts-keys_of ((i, vs) ∷ m) ((j, ws) ∷ n) (e, here, rest) = cc (SameOpts-keys_of m n rest)

redact_keys-SameOpts :
    (m n : Values) (ks : List Text) (b : Text)
    → SameOpts m n
    → redact_keys m ks b ≡ redact_keys n ks b
unfolding redact_keys
redact_keys-SameOpts m n [] b h = refl
redact_keys-SameOpts m n (k ∷ ks) b h =
    rw (redact_values-SameValues k _ _ b (SameOpts-get m n k h)) (redact_keys-SameOpts m n ks _ h)

SameOpts-is_empty : (m n : Values) → SameOpts m n → is_empty m ≡ is_empty n
SameOpts-is_empty [] [] h = refl
SameOpts-is_empty [] (y ∷ n) h = absurd h
SameOpts-is_empty (x ∷ m) [] h = absurd h
SameOpts-is_empty (x ∷ m) (y ∷ n) h = refl

-- What leaves the process does not depend on a credential: two refs with the same scheme, path, key
-- and options, at least one, whose sensitive options have as many values but any values, and whose
-- raw tags are arbitrary, have the same redacted form.
pub redacted-SameOpts :
    (r : Ref) (n : Values) (raw : Text)
    → is_empty r.opts ≡ false
    → SameOpts r.opts n
    → redacted r ≡ redacted (record r { opts = n; raw = raw })
unfolding redacted assemble
redacted-SameOpts r n raw given h = rw (
  given,
  ← SameOpts-is_empty r.opts n h,
  given,
  SameOpts-keys_of r.opts n h,
  redact_keys-SameOpts r.opts n (sort_strings (keys_of n)) [] h,
)
