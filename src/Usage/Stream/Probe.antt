-- ===== src/Usage/Stream/Probe.antt =====
-- The incremental search for a `data:` marker against a search of the whole buffer.
use hygress.Common.{
  ◌≡◌, refl, sym, ap, codes, ℕ, zero, suc, ◌+◌, ◌-◌, ◌≤◌, ◌<◌, [], ◌∷◌, ◌++◌, Bool, false, ◌==◌,
  leb, ◌&&◌, ◌||◌, starts_with, length, length-append, length-drop, drop, arith, Bool-cases, inl,
  inr,
}
use hygress.External.{Bytes}
use hygress.Usage.Stream.{marker_from, probe_anchored_data}

-- A `data:` right after some newline.
unfoldable pub has_later_marker : Bytes → Bool
has_later_marker [] = false
has_later_marker (b ∷ s) = starts_with (codes "\ndata:") (b ∷ s) || has_later_marker s

-- A `data:` at the begin of some line.
unfoldable pub has_marker : Bytes → Bool
has_marker s = starts_with (codes "data:") s || has_later_marker s

starts_with-append :
    (p a c : Bytes) → length p ≤ length a → starts_with p (a ++ c) ≡ starts_with p a
unfolding starts_with
starts_with-append [] a c h = refl
starts_with-append (x ∷ p) [] c h = absurd (omega arith)
starts_with-append (x ∷ p) (y ∷ a) c h =
    ap (λ b. (x == y) && b) (starts_with-append p a c (omega arith))

starts_with-short : (p s : Bytes) → length s < length p → starts_with p s ≡ false
unfolding starts_with
starts_with-short [] s h = absurd (omega arith)
starts_with-short (x ∷ p) [] h = refl
starts_with-short (x ∷ p) (y ∷ s) h = ground (arith, starts_with-short p s)

marker_from-nil : (fuel : ℕ) → marker_from fuel [] ≡ false
unfolding marker_from starts_with
marker_from-nil zero = refl
marker_from-nil (suc fuel) = marker_from-nil fuel

has_later_marker-short : (s : Bytes) → length s < 6 → has_later_marker s ≡ false
unfolding has_later_marker
has_later_marker-short [] h = refl
has_later_marker-short (b ∷ s) h =
    ground (arith, starts_with-short (codes "\ndata:") (b ∷ s), has_later_marker-short s)

marker_from-has_later_marker :
    (fuel : ℕ) (s : Bytes) → length s < fuel + 6 → marker_from fuel s ≡ has_later_marker s
unfolding marker_from has_later_marker
marker_from-has_later_marker zero s h = sym (has_later_marker-short s (omega arith))
marker_from-has_later_marker (suc fuel) [] h = marker_from-nil (suc fuel)
marker_from-has_later_marker (suc fuel) (b ∷ s) h =
    ground (arith, marker_from-has_later_marker fuel s)

-- Windows that lie in the part already searched need not be searched again.
has_later_marker-drop :
    (k : ℕ) (a c : Bytes)
    → k + 5 ≤ length a
    → has_later_marker a ≡ false
    → has_later_marker (a ++ c) ≡ has_later_marker (drop k (a ++ c))
unfolding has_later_marker
has_later_marker-drop zero a c h e = refl
has_later_marker-drop (suc k) [] c h e = absurd (omega arith)
has_later_marker-drop (suc k) (b ∷ a) c h e =
    ground (arith, starts_with-append (codes "\ndata:") (b ∷ a) c, has_later_marker-drop k a c)

searched :
    (a c : Bytes)
    → has_later_marker a ≡ false
    → has_later_marker (a ++ c) ≡ has_later_marker (drop (length a - 6) (a ++ c))
searched a c e = elim (Bool-cases (leb 6 (length a))) [
  | inl long ↦ has_later_marker-drop (length a - 6) a c (ground arith) e
  | inr short ↦ let start : length a - 6 ≡ 0 = ground arith in rw start refl
]

-- With a frontier that is the length of what was searched before in vain, the probe of the longer
-- buffer answers as a search of the whole of it.
pub probe_anchored_data-has_marker :
    (a c : Bytes)
    → has_marker a ≡ false
    → probe_anchored_data (a ++ c) (length a) ≡ has_marker (a ++ c)
unfolding probe_anchored_data has_marker
probe_anchored_data-has_marker a c h =
    let buf = a ++ c in
    let from = length a - 6 in
    ground (
      arith,
      h,
      length-append a c,
      searched a c,
      has_later_marker-short buf,
      starts_with-append (codes "data:") a c,
      starts_with-short (codes "data:") buf,
      marker_from-has_later_marker (suc (length buf - 6 - from)) (drop from buf),
      length-drop from buf,
    )
