-- ===== src/Attribution/Texts.antt =====
-- What the other side writes is read back.
use hygress.Common.{
  ◌≡◌, ◌≢◌, true-ne-false, refl, sym, ap, ◌∙◌, Str, codes, str_eq, str_eq_iff, ℕ, suc, ◌≤◌, [], ◌∷◌,
  ◌++◌, append_assoc, none, some, true, false, is_empty, all, length, drop, length-append,
  starts_with, strip_prefix, to_ascii_lowercase, show_uint, is_digit, u64_max, arith, Bool-cases,
  inl, inr,
}
use hygress.Common.Decimal.{AllDigits, show_uint-AllDigits, show_uint-ne-nil, parse_uint-show_uint}
use hygress.Common.Tokens.{Without, split-append, rsplit_once-none}
use hygress.Route.{last_segment}
use hygress.Attribution.{
  i64_max, rsplit_once_str, later_or_here, parse_consumer, first_part, first_or_nil, is_number,
  model_ids, parse_instance_ids,
}

digits-Without : (c : ℕ) (s : Str) → is_digit c ≡ false → AllDigits s → Without c s
digits-Without c [] h all_digits = tt
digits-Without c (d ∷ s) h (digit, all_digits) =
    (λ e. true-ne-false (sym digit ∙ ap is_digit e ∙ h), digits-Without c s h all_digits)

-- `.`, `-` and `/`.
not_digits : (is_digit 46 ≡ false) × (is_digit 45 ≡ false) × (is_digit 47 ≡ false)
unfolding is_digit
not_digits = (refl, refl, refl)

Without-append : (c : ℕ) (a b : Str) → Without c a → Without c b → Without c (a ++ b)
Without-append c [] b h k = k
Without-append c (d ∷ a) b (ne, h) k = (ne, Without-append c a b h k)

length-to_ascii_lowercase : (s : Str) → length (to_ascii_lowercase s) ≡ length s
unfolding to_ascii_lowercase
length-to_ascii_lowercase [] = refl
length-to_ascii_lowercase (c ∷ s) = ap suc (length-to_ascii_lowercase s)

-- A marker that begins with a character that a text has not does not occur in it.
rsplit_once_str-none : (m : ℕ) (p s : Str) → Without m s → rsplit_once_str (m ∷ p) s ≡ none
unfolding rsplit_once_str strip_prefix
rsplit_once_str-none m p [] h = refl
rsplit_once_str-none m p (c ∷ s) (ne, h) = ground (arith, rsplit_once_str-none m p s h)

strip_prefix-append : (p s : Str) → strip_prefix p (p ++ s) ≡ some s
unfolding strip_prefix
strip_prefix-append [] s = refl
strip_prefix-append (c ∷ p) s = ground (arith, strip_prefix-append p s)

rsplit_once_str-append :
    (m : ℕ) (p a b : Str)
    → Without m p
    → Without m b
    → rsplit_once_str (m ∷ p) (a ++ m ∷ (p ++ b)) ≡ some (a, b)
unfolding rsplit_once_str
rsplit_once_str-append m p [] b hp hb =
    rw (rsplit_once_str-none m p (p ++ b) (Without-append m p b hp hb))
      (ap (later_or_here none m) (strip_prefix-append (m ∷ p) b))
rsplit_once_str-append m p (c ∷ a) b hp hb = rw (rsplit_once_str-append m p a b hp hb) refl

abbrev pub consumer_text : Str → ℕ → Str
consumer_text key uid = key ++ (codes ".gpustack-" ++ show_uint uid)

not_none : (s : Str) → 5 ≤ length s → str_eq (to_ascii_lowercase s) (codes "none") ≡ false
not_none s h = elim (Bool-cases (str_eq (to_ascii_lowercase s) (codes "none"))) [
  | inl e ↦
      let same = ap length ((str_eq_iff (to_ascii_lowercase s) (codes "none")).0 e) in
      absurd (omega (arith, same, length-to_ascii_lowercase s, h))
  | inr e ↦ e
]

not_empty : (a : Str) (c : ℕ) (b : Str) → is_empty (a ++ c ∷ b) ≡ false
not_empty [] c b = refl
not_empty (d ∷ a) c b = refl

-- The consumer that the server composes of an access key, whatever it contains, and a user's id is
-- taken apart into the two.
pub parse_consumer-consumer_text :
    (key : Str) (uid : ℕ)
    → uid ≤ u64_max
    → parse_consumer (consumer_text key uid) ≡ (some uid, some key)
unfolding parse_consumer
parse_consumer-consumer_text key uid h =
    let name = codes "gpustack-" in
    let digits = show_uint uid in
    let no_dot : Without 46 digits =
      digits-Without 46 digits not_digits.0 (show_uint-AllDigits uid) in
    let whole = rsplit_once_str-append 46 name key digits (ground arith) no_dot in
    let long : 5 ≤ length (consumer_text key uid) =
      omega (arith, length-append key (codes ".gpustack-" ++ digits)) in
    rw (not_empty key 46 (name ++ digits)) (
      rw (not_none (consumer_text key uid) long)
        (rw whole (ap (λ u. (u, some key)) (parse_uint-show_uint u64_max uid h))))

-- The service of a model instance.
abbrev pub instance_text : ℕ → Str → Str → Str
instance_text model_id instance kind =
    codes "model-" ++ (show_uint model_id ++ 45 ∷ (instance ++ 46 ∷ kind))

all-is_digit : (s : Str) → AllDigits s → all is_digit s ≡ true
all-is_digit [] h = refl
all-is_digit (c ∷ s) (d, h) = rw d (all-is_digit s h)

is_empty_of : (s : Str) → s ≢ [] → is_empty s ≡ false
is_empty_of [] h = absurd (h refl)
is_empty_of (c ∷ s) h = refl

number-is_number : (n : ℕ) → is_number (show_uint n) ≡ true
number-is_number n =
    rw (is_empty_of (show_uint n) (show_uint-ne-nil n))
      (all-is_digit (show_uint n) (show_uint-AllDigits n))

drop-append : (a b : Str) → drop (length a) (a ++ b) ≡ b
drop-append [] b = refl
drop-append (c ∷ a) b = drop-append a b

last_segment-whole : (s : Str) → Without 47 s → last_segment s ≡ s
unfolding last_segment
last_segment-whole s h = rw (rsplit_once-none 47 s h) refl

read_number :
    (rest instance : Str) (m : ℕ)
    → m ≤ i64_max
    → first_part 45 rest ≡ show_uint m
    → rest ≡ show_uint m ++ 45 ∷ instance
    → (stem : Str) → model_ids stem (some rest) ≡ (some m, none)
unfolding starts_with
read_number rest instance m h first shape stem = rw first (
    rw (number-is_number m) (
      rw shape (
        rw (drop-append (show_uint m) (45 ∷ instance))
          (ap (λ id. (id, none)) (parse_uint-show_uint i64_max m h)))))

-- The model's id is read back from the service of one of its instances, and no provider's.
pub parse_instance_ids-instance_text :
    (model_id : ℕ) (instance kind : Str)
    → model_id ≤ i64_max
    → Without 46 instance
    → Without 47 instance
    → Without 47 kind
    → parse_instance_ids (instance_text model_id instance kind) ≡ (some model_id, none)
unfolding parse_instance_ids strip_prefix starts_with
parse_instance_ids-instance_text m instance kind h no_dot no_slash no_slash_kind =
    let digits = show_uint m in
    let all_digits = show_uint-AllDigits m in
    let rest = digits ++ 45 ∷ instance in
    let stem = codes "model-" ++ rest in
    let text = instance_text m instance kind in
    let cut : text ≡ stem ++ 46 ∷ kind =
      ap (λ s. codes "model-" ++ s) (sym (append_assoc digits (45 ∷ instance) (46 ∷ kind))) in
    let plain_rest : Without 46 rest =
      Without-append 46 digits (45 ∷ instance) (digits-Without 46 digits not_digits.0 all_digits)
        (ground arith, no_dot) in
    let plain_stem : Without 46 stem =
      Without-append 46 (codes "model-") rest (ground arith) plain_rest in
    let no_slash_rest : Without 47 rest =
      Without-append 47 digits (45 ∷ instance) (digits-Without 47 digits not_digits.2 all_digits)
        (ground arith, no_slash) in
    let plain_text : Without 47 (stem ++ 46 ∷ kind) =
      Without-append 47 stem (46 ∷ kind)
        (Without-append 47 (codes "model-") rest (ground arith) no_slash_rest)
        (ground arith, no_slash_kind) in
    let first : first_part 45 rest ≡ digits =
      ap first_or_nil
        (split-append 45 digits instance (digits-Without 45 digits not_digits.1 all_digits)) in
    rw cut (
      rw (last_segment-whole (stem ++ 46 ∷ kind) plain_text) (
        rw (split-append 46 stem kind plain_stem) (
          ap (model_ids stem) (strip_prefix-append (codes "model-") rest)
          ∙ read_number rest instance m h first refl stem)))
