-- ===== src/Retry/RoundTrip.antt =====
-- The annotation that stands for a list of conditions, and that it is read back.
use hygress.Common.{
  ap, ◌∙◌, Str, codes, str_eq, ℕ, List, [], ◌∷◌, ◌++◌, some, true, false, ◌≡◌, ◌≢◌, refl, arith,
  ◌⊎◌, All, is_empty, split, append_assoc, u16_max, strip_prefix, show_uint, is_digit,
  is_whitespace, leb,
}
use hygress.Common.Tokens.{
  Without, NoSpace, NoUpper, split-single, split-append, trim-NoSpace, to_ascii_lowercase-NoUpper,
}
use hygress.Common.Decimal.{parse_uint-show_uint, show_uint-AllDigits, AllDigits}
use hygress.Retry.{
  RetryCond, error, timeout, http_5xx, status, non_idempotent, parse_cond_token, add_token,
  add_tokens, parse_conditions,
}
use hygress.Retry.Annotation.{IsStatusOk}

abbrev pub print_cond : RetryCond → Str
print_cond error = codes "error"
print_cond timeout = codes "timeout"
print_cond http_5xx = codes "5xx"
print_cond non_idempotent = codes "non_idempotent"
print_cond (status n) = codes "http_" ++ show_uint n

-- The words, each followed by a comma but the last.
abbrev pub print_conds : RetryCond → List RetryCond → Str
print_conds c [] = print_cond c
print_conds c (d ∷ ds) = print_cond c ++ b',' ∷ print_conds d ds

-- Characters that no step of the parser removes, changes or cuts at.
abbrev IsWordChar : ℕ → Type 0
IsWordChar c = (c ≢ b',') × (is_whitespace c ≡ false) × ((leb 65 c ≡ false) ⊎ (leb c 90 ≡ false))

digit-IsWordChar : (c : ℕ) → is_digit c ≡ true → IsWordChar c
unfolding is_digit is_whitespace
digit-IsWordChar c h = ground arith

digits-IsWordChar : (s : Str) → AllDigits s → All IsWordChar s
digits-IsWordChar [] h = tt
digits-IsWordChar (c ∷ s) (p, h) = (digit-IsWordChar c p, digits-IsWordChar s h)

print_cond-IsWordChar : (c : RetryCond) → All IsWordChar (print_cond c)
unfolding is_whitespace
print_cond-IsWordChar error = ground arith
print_cond-IsWordChar timeout = ground arith
print_cond-IsWordChar http_5xx = ground arith
print_cond-IsWordChar non_idempotent = ground arith
print_cond-IsWordChar (status n) =
    let prefix : All IsWordChar (codes "http_") = ground arith in
    let digits = digits-IsWordChar (show_uint n) (show_uint-AllDigits n) in
    (prefix.0, (prefix.1.0, (prefix.1.1.0, (prefix.1.1.1.0, (prefix.1.1.1.1.0, digits)))))

word : (s : Str) → All IsWordChar s → Without b',' s × NoSpace s × NoUpper s
word [] h = (tt, tt, tt)
word (c ∷ s) ((a, b, d), h) = let (p, q, r) = word s h in ((a, p), (b, q), (d, r))

parse_cond_token-print_cond :
    (c : RetryCond) → IsStatusOk c → parse_cond_token (print_cond c) ≡ some c
unfolding parse_cond_token str_eq strip_prefix
parse_cond_token-print_cond error h = refl
parse_cond_token-print_cond timeout h = refl
parse_cond_token-print_cond http_5xx h = refl
parse_cond_token-print_cond non_idempotent h = refl
parse_cond_token-print_cond (status n) h =
    rw (parse_uint-show_uint u16_max n (omega arith)) (ground arith)

print_cond-ne-nil : (c : RetryCond) → is_empty (print_cond c) ≡ false
print_cond-ne-nil error = refl
print_cond-ne-nil timeout = refl
print_cond-ne-nil http_5xx = refl
print_cond-ne-nil non_idempotent = refl
print_cond-ne-nil (status n) = refl

add_token-print_cond :
    (c : RetryCond) (out : List RetryCond) (unknown : List Str)
    → IsStatusOk c
    → add_token (print_cond c) (out, unknown) ≡ (out ++ c ∷ [], unknown)
unfolding add_token
add_token-print_cond c out unknown h =
    let (_, spaceless, lower) = word (print_cond c) (print_cond-IsWordChar c) in
    rw
      (
        trim-NoSpace (print_cond c) spaceless,
        to_ascii_lowercase-NoUpper (print_cond c) lower,
        print_cond-ne-nil c,
        parse_cond_token-print_cond c h,
      )
      refl

add_tokens-print_conds :
    (c : RetryCond) (cs out : List RetryCond) (unknown : List Str)
    → IsStatusOk c
    → All IsStatusOk cs
    → add_tokens (split b',' (print_conds c cs)) (out, unknown) ≡ (out ++ c ∷ cs, unknown)
unfolding add_tokens
add_tokens-print_conds c [] out unknown h hs =
    let (comma_free, _, _) = word (print_cond c) (print_cond-IsWordChar c) in
    ap (λ ts. add_tokens ts (out, unknown)) (split-single b',' (print_cond c) comma_free)
    ∙ add_token-print_cond c out unknown h
add_tokens-print_conds c (d ∷ ds) out unknown h (k, ks) =
    let (comma_free, _, _) = word (print_cond c) (print_cond-IsWordChar c) in
    ap (λ ts. add_tokens ts (out, unknown))
      (split-append b',' (print_cond c) (print_conds d ds) comma_free)
    ∙ ap (add_tokens (split b',' (print_conds d ds))) (add_token-print_cond c out unknown h)
    ∙ add_tokens-print_conds d ds (out ++ c ∷ []) unknown k ks
    ∙ ap (λ l. (l, unknown)) (append_assoc out (c ∷ []) (d ∷ ds))

-- The words for a list of conditions, joined by commas, are read back as those conditions, with
-- nothing unknown, where each exact status is a 4xx or a 5xx.
pub parse_conditions-print_conds :
    (c : RetryCond) (cs : List RetryCond)
    → IsStatusOk c
    → All IsStatusOk cs
    → parse_conditions (some (print_conds c cs)) ≡ (c ∷ cs, [])
unfolding parse_conditions
parse_conditions-print_conds c cs h hs = add_tokens-print_conds c cs [] [] h hs
