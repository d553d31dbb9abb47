-- ===== src/FormData.antt =====
-- crates/hygress-core/src/bytes.rs: the search for a field of a multipart form. A text argument is
-- its bytes.
pub mod Span
use hygress.Common.{
  codes, ℕ, zero, suc, ◌+◌, ◌-◌, List, [], ◌∷◌, ◌++◌, Option, none, some, Bool, true, false, ltb,
  leb, if◌then◌else◌, is_empty, is_some, length, take, drop, str_eq, ends_with, unwrap_or,
}
use hygress.External.{Bytes, Memchr}

abbrev pub shifted : ℕ → Option ℕ → Option ℕ
shifted from none = none
shifted from (some i) = some (i + from)

-- What follows a place that was found.
abbrev pub at_place {ℓ} : {A : Type ℓ} → Option ℕ → A → (ℕ → A) → A
at_place none stop go = stop
at_place (some i) stop go = go i

-- A span ends the loop; otherwise the search goes on at the next part.
abbrev pub or_later {ℓ} :
    {A : Type ℓ} → Option A → (Unit {0} → Option (Option A)) → Option (Option A)
or_later none later = later tt
or_later (some span) later = some (some span)

unfoldable pub replace_bytes : Bytes → ℕ → ℕ → Bytes → Bytes
replace_bytes hay start end new = take start hay ++ new ++ drop end hay

module _ (mem : Memchr) where
  unfoldable pub find_subseq : Bytes → Bytes → ℕ → Option ℕ
  find_subseq hay needle from =
      if is_empty needle
      then if leb from (length hay) then some from else none
      else if ltb (length hay) (from + length needle)
      then none
      else shifted from (mem.memmem needle (drop from hay))

  unfoldable pub contains_form_field : Bytes → Bytes → Bool
  contains_form_field header field =
      is_some (find_subseq header (codes "name=\"" ++ field ++ codes "\"") 0)

  -- The value of one part, which begins at `after` and ends at `next`.
  abbrev value_end : Bytes → ℕ → ℕ
  value_end part next = if ends_with (codes "\r\n") part then next - 2 else next

  unfoldable pub part_span : Bytes → Bytes → ℕ → ℕ → Option (ℕ × ℕ)
  part_span part field after next = at_place (find_subseq part (codes "\r\n\r\n") 0) none (λ sep.
      if contains_form_field (take sep part) field
      then if leb (after + sep + 4) (value_end part next)
        then some (after + sep + 4, value_end part next)
        else none
      else none)

  -- `none` is a loop that did not end within the fuel.
  unfoldable pub scan_parts : ℕ → Bytes → Bytes → Bytes → ℕ → Option (Option (ℕ × ℕ))
  scan_parts zero body marker field search_from = none
  scan_parts (suc fuel) body marker field search_from =
      if ltb (length body) search_from
      then some none
      else at_place (find_subseq body marker search_from) (some none) (λ start.
        let after = start + length marker in
        if str_eq (take 2 (drop after body)) (codes "--")
        then some none
        else let next = unwrap_or (find_subseq body marker after) (length body) in
          or_later (part_span (take (next - after) (drop after body)) field after next)
            (λ _. scan_parts fuel body marker field next))

  -- One round for each byte of the body, and one for its end.
  unfoldable pub first_form_value_span : Bytes → Bytes → Bytes → Option (ℕ × ℕ)
  first_form_value_span body boundary field =
      unwrap_or (scan_parts (suc (length body)) body (codes "--" ++ boundary) field 0) none
