-- ===== src/Guardrail/Scanner.antt =====
-- What the scanner sees of a stream.
use hygress.Common.{
  concat, ap, sym, ◌∙◌, ℕ, zero, suc, ◌+◌, ◌-◌, ◌≤◌, min, Str, List, [], ◌∷◌, ◌++◌, ◌≡◌, refl,
  arith, length, drop, length-append, length-drop, drop-append, append_assoc, append-nil, ltb,
  Bool-cases, inl, inr,
}
use hygress.Regex.{RegexEngine}
use hygress.Guardrail.{
  StaticRuleSet, ChunkScanner, new_scanner, push_chunk, evaluate, evaluate_buffer, feed,
}

-- The last `n` bytes.
abbrev pub last : ℕ → List ℕ → List ℕ
last n xs = drop (length xs - n) xs

drop_all : (n : ℕ) (xs : List ℕ) → length xs ≤ n → drop n xs ≡ []
drop_all zero [] h = refl
drop_all zero (x ∷ xs) h = absurd (omega arith)
drop_all (suc n) [] h = refl
drop_all (suc n) (x ∷ xs) h = drop_all n xs (omega arith)

drop-drop : (m n : ℕ) (xs : List ℕ) → drop m (drop n xs) ≡ drop (n + m) xs
drop-drop m zero xs = ap (λ k. drop k xs) (omega arith)
drop-drop m (suc n) [] = drop_all m [] (omega arith) ∙ sym (drop_all (suc n + m) [] (omega arith))
drop-drop m (suc n) (x ∷ xs) =
    drop-drop m n xs
    ∙ ap (λ k. drop k (x ∷ xs)) (let e : suc (n + m) ≡ suc n + m = omega arith in e)

-- To take the last bytes of a text, nothing before the last bytes of its beginning is needed.
pub last-append_last : (n : ℕ) (xs ys : List ℕ) → last n (last n xs ++ ys) ≡ last n (xs ++ ys)
last-append_last n xs ys =
    let k = length xs - n in
    let joined : drop k xs ++ ys ≡ drop k (xs ++ ys) = sym (drop-append k xs ys (omega arith)) in
    ap (last n) joined
    ∙ drop-drop (length (drop k (xs ++ ys)) - n) k (xs ++ ys)
    ∙ ap (λ j. drop j (xs ++ ys)) (omega (arith, length-drop k (xs ++ ys), length-append xs ys))

last_short : (n : ℕ) (xs : List ℕ) → length xs ≤ n → last n xs ≡ xs
last_short n xs h = ap (λ k. drop k xs) (let e : length xs - n ≡ 0 = omega arith in e)

length-last : (n : ℕ) (xs : List ℕ) → length (last n xs) ≡ min n (length xs)
length-last n xs = omega (arith, length-drop (length xs - n) xs)

last_of_append : (n : ℕ) (xs ys : List ℕ) → length ys ≡ n → last n (xs ++ ys) ≡ ys
last_of_append n xs ys h =
    let k : length (xs ++ ys) - n ≡ length xs = omega (arith, length-append xs ys) in
    ap (λ j. drop j (xs ++ ys)) k
    ∙ drop-append (length xs) xs ys (omega arith)
    ∙ ap (λ z. z ++ ys) (drop_all (length xs) xs (omega arith))

module _ (rx : RegexEngine) where
  push_chunk-buffer :
      (s : ChunkScanner rx) (chunk : List ℕ)
      → (push_chunk rx s chunk).buffer ≡ last s.max_tail (s.buffer ++ chunk)
  unfolding push_chunk
  push_chunk-buffer s chunk = elim (Bool-cases (ltb s.max_tail (length (s.buffer ++ chunk)))) [
    | inl e ↦ rw e refl
    | inr e ↦ rw e (sym (last_short s.max_tail (s.buffer ++ chunk) (ground arith)))
  ]

  module _ (from_utf8_lossy : List ℕ → Str) where
    abbrev pub feed_all : ChunkScanner rx → List (List ℕ) → ChunkScanner rx
    feed_all s [] = s
    feed_all s (c ∷ cs) = feed_all (feed rx from_utf8_lossy s c).0 cs

    pub feed-rules :
        (s : ChunkScanner rx) (c : List ℕ) → (feed rx from_utf8_lossy s c).0.rules ≡ s.rules
    unfolding feed push_chunk
    feed-rules s c = refl

    pub feed-max_tail :
        (s : ChunkScanner rx) (c : List ℕ) → (feed rx from_utf8_lossy s c).0.max_tail ≡ s.max_tail
    unfolding feed push_chunk
    feed-max_tail s c = refl

    pub feed-buffer :
        (s : ChunkScanner rx) (c : List ℕ)
        → (feed rx from_utf8_lossy s c).0.buffer ≡ last s.max_tail (s.buffer ++ c)
    unfolding feed
    feed-buffer s c = push_chunk-buffer s c

    pub feed-decision :
        (s : ChunkScanner rx) (c : List ℕ)
        → (feed rx from_utf8_lossy s c).1
          ≡ evaluate rx s.rules (from_utf8_lossy (last s.max_tail (s.buffer ++ c)))
    unfolding feed evaluate_buffer push_chunk
    feed-decision s c = ap (λ b. evaluate rx s.rules (from_utf8_lossy b)) (push_chunk-buffer s c)

    feed_all-buffer :
        (s : ChunkScanner rx) (cs : List (List ℕ))
        → length s.buffer ≤ s.max_tail
        → ((feed_all s cs).buffer ≡ last s.max_tail (s.buffer ++ concat cs))
          × ((feed_all s cs).max_tail ≡ s.max_tail)
          × ((feed_all s cs).rules ≡ s.rules)
    feed_all-buffer s [] h = (
      sym (append-nil s.buffer)
          ∙ sym (last_short s.max_tail (s.buffer ++ []) (omega (arith, length-append s.buffer []))),
      refl,
      refl,
    )
    feed_all-buffer s (c ∷ cs) h =
        let s' = (feed rx from_utf8_lossy s c).0 in
        let m = s.max_tail in
        let buffer_eq = feed-buffer s c in
        let tail_eq = feed-max_tail s c in
        let (later, same_tail, same_rules) =
          feed_all-buffer s' cs
            (omega (arith, ap length buffer_eq, length-last m (s.buffer ++ c), tail_eq)) in
        (
          later
              ∙ ap (λ k. last k (s'.buffer ++ concat cs)) tail_eq
              ∙ ap (λ b. last m (b ++ concat cs)) buffer_eq
              ∙ last-append_last m (s.buffer ++ c) (concat cs)
              ∙ ap (last m) (append_assoc s.buffer c (concat cs)),
          same_tail ∙ tail_eq,
          same_rules ∙ feed-rules s c,
        )

    -- After any chunks, the next one is judged by the last `max_tail` bytes of the whole stream so
    -- far, however the stream was cut into chunks.
    pub feed_all-decision :
        (rules : StaticRuleSet rx) (max_tail : ℕ) (cs : List (List ℕ)) (c : List ℕ)
        → (feed rx from_utf8_lossy (feed_all (new_scanner rx rules max_tail) cs) c).1
          ≡ evaluate rx rules (from_utf8_lossy (last max_tail (concat cs ++ c)))
    unfolding new_scanner
    feed_all-decision rules max_tail cs c =
        let start = new_scanner rx rules max_tail in
        let (buffer_eq, tail_eq, rules_eq) = feed_all-buffer start cs (omega arith) in
        let s = feed_all start cs in
        feed-decision s c
        ∙ ap (λ k. evaluate rx s.rules (from_utf8_lossy (last k (s.buffer ++ c)))) tail_eq
        ∙ ap (λ b. evaluate rx s.rules (from_utf8_lossy (last max_tail (b ++ c)))) buffer_eq
        ∙ ap (λ b. evaluate rx s.rules (from_utf8_lossy b))
            (last-append_last max_tail (concat cs) c)
        ∙ ap (λ r. evaluate rx r (from_utf8_lossy (last max_tail (concat cs ++ c)))) rules_eq

    -- The scanner never holds more than `max_tail` bytes.
    pub feed_all-bounded :
        (rules : StaticRuleSet rx) (max_tail : ℕ) (cs : List (List ℕ))
        → length (feed_all (new_scanner rx rules max_tail) cs).buffer ≤ max_tail
    unfolding new_scanner
    feed_all-bounded rules max_tail cs =
        let (buffer_eq, _, _) = feed_all-buffer (new_scanner rx rules max_tail) cs (omega arith) in
        omega (arith, ap length buffer_eq, length-last max_tail (concat cs))

    -- Of a chunk that is longer than `max_tail` only the last `max_tail` bytes are judged: the bytes
    -- `a` before them are dropped before any rule has seen them, whatever they are.
    pub feed-long_chunk :
        (s : ChunkScanner rx) (a b : List ℕ)
        → length b ≡ s.max_tail
        → (feed rx from_utf8_lossy s (a ++ b)).1 ≡ evaluate rx s.rules (from_utf8_lossy b)
    feed-long_chunk s a b h =
        let m = s.max_tail in
        feed-decision s (a ++ b)
        ∙ ap (λ k. evaluate rx s.rules (from_utf8_lossy k))
            (ap (last m) (sym (append_assoc s.buffer a b)) ∙ last_of_append m (s.buffer ++ a) b h)
