-- ===== src/Retry/Annotation.antt =====
-- Parsing the retry annotations.
use hygress.Common.{
  subst, if◌then◌else◌, sym, Str, ◌≤◌, List, [], ◌∷◌, ◌++◌, Option, none, some, true, false, ◌≡◌,
  ◌∙◌, ◌⊎◌, inl, inr, refl, arith, All, append_assoc, append-nil, is_empty, trim,
  to_ascii_lowercase, split, Option-cases, Bool-cases,
}
use hygress.Retry.{
  RetryCond, status, parse_cond_token, add_token, add_tokens, parse_conditions, parse_tries,
  parse_retry,
}

-- A status condition lies in 400..=599.
abbrev pub IsStatusOk : RetryCond → Type 0
IsStatusOk (status n) = (400 ≤ n) × (n ≤ 599)
IsStatusOk _ = Unit

parse_cond_token-IsStatusOk : (t : Str) (c : RetryCond) → parse_cond_token t ≡ some c → IsStatusOk c
unfolding parse_cond_token
parse_cond_token-IsStatusOk t c e = ground arith

-- What `parse` collects of one token: a condition, an unknown word, or nothing for a blank.
add_token-cases :
    (t : Str) (out : List RetryCond) (unknown : List Str)
    → let w = to_ascii_lowercase (trim t) in
      ((is_empty w ≡ true) × (add_token t (out, unknown) ≡ (out, unknown)))
      ⊎ ((c : RetryCond) × (is_empty w ≡ false)
          × (parse_cond_token w ≡ some c)
          × (add_token t (out, unknown) ≡ (out ++ c ∷ [], unknown)))
      ⊎ ((is_empty w ≡ false)
          × (parse_cond_token w ≡ none)
          × (add_token t (out, unknown) ≡ (out, unknown ++ w ∷ [])))
unfolding add_token
add_token-cases t out unknown = elim (Bool-cases (is_empty (to_ascii_lowercase (trim t)))) [
  | inl e ↦ inl (e, rw e refl)
  | inr e ↦ elim (Option-cases (parse_cond_token (to_ascii_lowercase (trim t)))) [
    | inl miss ↦ inr (inr (e, miss, rw (e, miss) refl))
    | inr (c, found) ↦ inr (inl (c, e, found, rw (e, found) refl))
  ]
]

-- The words of the tokens: what is not blank, trimmed and in lower case.
unfoldable pub words : List Str → List Str
words [] = []
words (t ∷ ts) =
    let w = to_ascii_lowercase (trim t) in
    let rest = words ts in if is_empty w then rest else w ∷ rest

abbrev cons_some : Option RetryCond → List RetryCond → List RetryCond
cons_some none cs = cs
cons_some (some c) cs = c ∷ cs

abbrev cons_missed : Option RetryCond → Str → List Str → List Str
cons_missed none w ws = w ∷ ws
cons_missed (some c) w ws = ws

-- The conditions that the words name, and the words that name none, in their order.
unfoldable pub known : List Str → List RetryCond
known [] = []
known (w ∷ ws) = cons_some (parse_cond_token w) (known ws)

unfoldable pub missed : List Str → List Str
missed [] = []
missed (w ∷ ws) = cons_missed (parse_cond_token w) w (missed ws)

All-append :
    (xs ys : List RetryCond) → All IsStatusOk xs → All IsStatusOk ys → All IsStatusOk (xs ++ ys)
All-append [] ys h k = k
All-append (x ∷ xs) ys (p, h) k = (p, All-append xs ys h k)

abbrev Accounted : List Str → List RetryCond × List Str → List RetryCond × List Str → Type 0
Accounted ts before after =
    (after.0 ≡ before.0 ++ known (words ts))
    × (after.1 ≡ before.1 ++ missed (words ts))
    × (All IsStatusOk before.0 → All IsStatusOk after.0)

add_tokens-Accounted :
    (ts : List Str) (out : List RetryCond) (unknown : List Str)
    → Accounted ts (out, unknown) (add_tokens ts (out, unknown))
unfolding add_tokens words known missed
add_tokens-Accounted [] out unknown = (sym (append-nil out), sym (append-nil unknown), λ h. h)
add_tokens-Accounted (t ∷ ts) out unknown = elim (add_token-cases t out unknown) [
  | inl (blank, same) ↦
      let (same_out, same_unknown, valid) = add_tokens-Accounted ts out unknown in
      after same (rw blank (same_out, same_unknown, valid))
  | inr (inl (c, word, found, same)) ↦
      let (same_out, same_unknown, valid) = add_tokens-Accounted ts (out ++ c ∷ []) unknown in
      after same (
        rw (word, found)
          (
            same_out ∙ append_assoc out (c ∷ []) (known (words ts)),
            same_unknown,
            λ h. valid (All-append out (c ∷ []) h (parse_cond_token-IsStatusOk _ c found, tt)),
          ))
  | inr (inr (word, none_found, same)) ↦
      let w = to_ascii_lowercase (trim t) in
      let (same_out, same_unknown, valid) = add_tokens-Accounted ts out (unknown ++ w ∷ []) in
      after same (
        rw (word, none_found)
          (same_out, same_unknown ∙ append_assoc unknown (w ∷ []) (missed (words ts)), valid))
]
  where
    after :
        {r : List RetryCond × List Str}
        → add_token t (out, unknown) ≡ r
        → Accounted (t ∷ ts) (out, unknown) (add_tokens ts r)
        → Accounted (t ∷ ts) (out, unknown) (add_tokens (t ∷ ts) (out, unknown))
    after same h = subst (λ r. Accounted (t ∷ ts) (out, unknown) (add_tokens ts r)) (sym same) h

tries_bounded : (tries : Option Str) → parse_tries tries ≤ 32
unfolding parse_tries
tries_bounded none = omega arith
tries_bounded (some raw) = omega arith

-- Whatever the annotations hold, there are at most 32 tries, each exact status is a 4xx or a 5xx,
-- and of the words between the commas that are not blank, trimmed and in lower case, the conditions
-- are those that the words name, and the words that name none are reported, both in their order.
pub parse_retry_accounts :
    (raw : Str) (tries : Option Str)
    → let r = parse_retry (some raw) tries in
      (r.policy.tries ≤ 32)
      × All IsStatusOk r.policy.conditions
      × (r.policy.conditions ≡ known (words (split b',' raw)))
      × (r.unknown ≡ missed (words (split b',' raw)))
unfolding parse_retry parse_conditions
parse_retry_accounts raw tries =
    let (same_out, same_unknown, valid) = add_tokens-Accounted (split b',' raw) [] [] in
    (tries_bounded tries, valid tt, same_out, same_unknown)
