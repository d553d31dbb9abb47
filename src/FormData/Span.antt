-- ===== src/FormData/Span.antt =====
-- The search for a form field ends, and its answer lies within the body.
use hygress.Common.{
  ◌≡◌, ◌≢◌, refl, codes, ℕ, zero, suc, ◌+◌, ◌-◌, ◌≤◌, ◌<◌, [], ◌∷◌, ◌++◌, Option, none, some, Bool,
  true, false, ltb, if◌then◌else◌, length, take, drop, length-drop, starts_with, str_eq, unwrap_or,
  arith, Bool-cases, Option-cases, inl, inr,
}
use hygress.External.{Bytes, Memchr, IsFirst, index_of_text}
use hygress.FormData.{find_subseq, part_span, or_later, scan_parts, first_form_value_span}

starts_with-length : (p s : Bytes) → starts_with p s ≡ true → length p ≤ length s
unfolding starts_with
starts_with-length [] s h = omega arith
starts_with-length (x ∷ p) [] h = cc
starts_with-length (x ∷ p) (y ∷ s) h = ground (arith, starts_with-length p s)

index_of_text-length : (p s : Bytes) (i : ℕ) → index_of_text p s ≡ some i → i + length p ≤ length s
index_of_text-length p [] i h = ground (arith, starts_with-length p [])
index_of_text-length p (c ∷ s) i h = elim (Bool-cases (starts_with p (c ∷ s))) [
  | inl e ↦ ground (arith, starts_with-length p (c ∷ s))
  | inr e ↦ elim (Option-cases (index_of_text p s)) [
    | inl q ↦ ground arith
    | inr (j, q) ↦ ground (arith, index_of_text-length p s j q)
  ]
]

module _ (mem : Memchr) (first : IsFirst mem) where
  pub find_subseq-bounds :
      (hay needle : Bytes) (from i : ℕ)
      → find_subseq mem hay needle from ≡ some i
      → (from ≤ i) × (i + length needle ≤ length hay)
  unfolding find_subseq
  find_subseq-bounds hay [] from i h = ground arith
  find_subseq-bounds hay (x ∷ needle) from i h =
      let p = x ∷ needle in
      elim (Option-cases (index_of_text p (drop from hay))) [
        | inl e ↦ ground (arith, first.memmem_first p (drop from hay), e)
        | inr (j, e) ↦ ground (
          arith,
          first.memmem_first p (drop from hay),
          e,
          length-drop from hay,
          index_of_text-length p (drop from hay) j e,
        )
      ]

  -- Where the next part begins.
  next-bounds :
      (body marker : Bytes) (after : ℕ)
      → after ≤ length body
      → let next = unwrap_or (find_subseq mem body marker after) (length body) in
        (after ≤ next) × (next ≤ length body)
  next-bounds body marker after h = elim (Option-cases (find_subseq mem body marker after)) [
    | inl e ↦ rw e (h, omega arith)
    | inr (i, e) ↦
        let b = find_subseq-bounds body marker after i e in rw e (b.0, omega (arith, b.1))
  ]

  -- A span lies within the body.
  abbrev pub IsWithin : Bytes → Option (ℕ × ℕ) → Type 0
  IsWithin body none = Unit
  IsWithin body (some (start, end)) = (start ≤ end) × (end ≤ length body)

  part_span-IsWithin :
      (body part field : Bytes) (after next : ℕ)
      → next ≤ length body
      → IsWithin body (part_span mem part field after next)
  unfolding part_span
  part_span-IsWithin body part field after next h =
      elim (Option-cases (find_subseq mem part (codes "\r\n\r\n") 0)) [
        | inl e ↦ rw e tt
        | inr (sep, e) ↦ rw e (ground arith)
      ]

  abbrev Ends : Bytes → Option (Option (ℕ × ℕ)) → Type 0
  Ends body o = (r : Option (ℕ × ℕ)) × (o ≡ some r) × IsWithin body r

  or_later-Ends :
      (body : Bytes) (span : Option (ℕ × ℕ)) (later : Unit {0} → Option (Option (ℕ × ℕ)))
      → IsWithin body span
      → Ends body (later tt)
      → Ends body (or_later span later)
  or_later-Ends body none later h k = k
  or_later-Ends body (some span) later h k = (some span, refl, h)

  if-Ends :
      (body : Bytes) (b : Bool) (o : Option (Option (ℕ × ℕ)))
      → (b ≡ false → Ends body o)
      → Ends body (if b then some none else o)
  if-Ends body true o h = (none, refl, tt)
  if-Ends body false o h = h refl

  nonempty-length : (marker : Bytes) → marker ≢ [] → 1 ≤ length marker
  nonempty-length [] ne = absurd (ne refl)
  nonempty-length (x ∷ marker) ne = omega arith

  -- A loop that has a round for each byte that is left ends, with no span or one in the body.
  scan_parts-Ends :
      (fuel : ℕ) (body marker field : Bytes) (from : ℕ)
      → marker ≢ []
      → from ≤ length body
      → length body < fuel + from
      → Ends body (scan_parts mem fuel body marker field from)
  unfolding scan_parts
  scan_parts-Ends zero body marker field from ne low h = absurd (omega arith)
  scan_parts-Ends (suc fuel) body marker field from ne low h =
      if-Ends body (ltb (length body) from) _ (λ in_range.
        elim (Option-cases (find_subseq mem body marker from)) [
          | inl e ↦ rw e (none, refl, tt)
          | inr (start, e) ↦
              let after = start + length marker in
              let next = unwrap_or (find_subseq mem body marker after) (length body) in
              let found = find_subseq-bounds body marker from start e in
              let range = next-bounds body marker after found.1 in
              rw e (
                if-Ends body (str_eq (take 2 (drop after body)) (codes "--")) _ (λ more.
                  or_later-Ends body _ _
                    (part_span-IsWithin body (take (next - after) (drop after body)) field after
                      next range.1)
                    (scan_parts-Ends fuel body marker field next ne range.1
                      (omega (arith, nonempty-length marker ne, found.0, range.0)))))
        ])

  marker-ne-nil : (boundary : Bytes) → codes "--" ++ boundary ≢ []
  marker-ne-nil boundary h = cc

  -- The search ends within one round for each byte of the body and one more, and its answer is no
  -- span or one that lies within the body.
  pub first_form_value_span-IsWithin :
      (body boundary field : Bytes)
      → (scan_parts mem (suc (length body)) body (codes "--" ++ boundary) field 0
          ≡ some (first_form_value_span mem body boundary field))
        × IsWithin body (first_form_value_span mem body boundary field)
  unfolding first_form_value_span
  first_form_value_span-IsWithin body boundary field =
      let (r, e, h) =
        scan_parts-Ends (suc (length body)) body (codes "--" ++ boundary) field 0
          (marker-ne-nil boundary) (omega arith) (omega arith) in
      rw e (refl, h)
