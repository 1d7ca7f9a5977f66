-- ===== src/Toml/Blocks.antt =====
-- packages/agent-installers/src/tomlConfig.ts: what is between the marker lines of a managed block.
use pickforge.Base.{
  ℕ, zero, suc, ◌+◌, ◌-◌, ◌≡◌, ◌≤◌, ◌⊎◌, refl, sym, ap, ◌∙◌, subst, Bool, true, ◌||◌, Option, none,
  some, List, [], ◌∷◌, ◌++◌, length, drop, take, ◌==◌, ltb, if◌then◌else◌, arith, All, All-append,
  Option-cases, Bool-cases, inl, inr, drop-drop, take-append, append_assoc, ok, get_elem?,
}
use pickforge.Toml.Texts.{
  is_blank, is_terminator, strip, blanks, skip_blanks, return_and_end, blanks_and_end,
}
use pickforge.Toml.Markers.{
  Markers, MarkerLine, MarkerSplit, marker_here, marker_line, find_from, find_marker_line, slice,
  block_end, split_markers,
}

-- What may follow the ending marker in its block: blanks, a carriage return and a line feed.
abbrev pub IsTail : ℕ → Type 0
IsTail c = is_blank c || ((c == 13) || (c == 10)) ≡ true

-- A managed block: it begins with the one marker, and ends with the other one and blanks or the end of
-- its line.
abbrev pub IsManaged : Markers → List ℕ → Type 0
IsManaged markers block =
    ((body : List ℕ) × (block ≡ markers.begin ++ body))
    × ((inner : List ℕ) × (tail : List ℕ) × (block ≡ inner ++ (markers.ending ++ tail))
        × All IsTail tail)

-- The second text is the first one without its managed block, or the same one if it has no line with
-- the marker that begins a block.
abbrev pub IsCut : Markers → List ℕ → List ℕ → Type 0
IsCut markers content rest =
    ((find_marker_line content markers.begin ≡ none) × (rest ≡ content))
    ⊎ ((before : List ℕ) × (block : List ℕ) × (after : List ℕ) × (content
          ≡ before ++ (block ++ after))
        × (rest ≡ before ++ after)
        × IsManaged markers block)

-- A line that is found has the marker at its start, and blanks to its end.
abbrev Found : List ℕ → ℕ → List ℕ → MarkerLine → Type 0
Found marker i text line =
    (k : ℕ) × (rest : List ℕ) × (n : ℕ) × (line.start ≡ i + k)
    × (drop k text ≡ marker ++ rest)
    × (blanks_and_end rest ≡ some n)
    × (line.finish ≡ line.start + (length marker + n))

strip-append : (prefix text rest : List ℕ) → strip prefix text ≡ some rest → text ≡ prefix ++ rest
unfolding strip
strip-append [] text rest e = ground arith
strip-append (p ∷ ps) [] rest e = ground arith
strip-append (p ∷ ps) (c ∷ cs) rest e = ground (arith, e, strip-append ps cs rest)

marker_here-Found :
    (marker : List ℕ) (i : ℕ) (text : List ℕ) (line : MarkerLine)
    → marker_line i (marker_here marker text) ≡ some line
    → Found marker i text line
unfolding marker_here
marker_here-Found marker i text line e = elim (Option-cases (strip marker text)) [
  | inl other ↦ let absurd : ⊥ = ground (arith, e, other) in elim absurd [ ]
  | inr (rest, got) ↦ elim (Option-cases (blanks_and_end rest)) [
    | inl more ↦ let absurd : ⊥ = ground (arith, e, got, more) in elim absurd [ ]
    | inr (n, ended) ↦ (
      0,
      rest,
      n,
      ground (arith, e, got, ended),
      strip-append marker text rest got,
      ended,
      ground (arith, e, got, ended),
    )
  ]
]

find_from-Found :
    (marker : List ℕ) (at_start : Bool) (i : ℕ) (text : List ℕ) (line : MarkerLine)
    → find_from marker at_start i text ≡ some line
    → Found marker i text line
unfolding find_from
find_from-Found marker at_start i [] line e = marker_here-Found marker i [] line (ground (arith, e))
find_from-Found marker at_start i (c ∷ cs) line e =
    elim (Option-cases (if at_start then marker_line i (marker_here marker (c ∷ cs)) else none)) [
      | inl later ↦
          let (k, rest, n, starts, marked, ended, finishes) =
            find_from-Found marker (is_terminator c) (suc i) cs line (ground (arith, e, later)) in
          (suc k, rest, n, omega (arith, starts), marked, ended, finishes)
      | inr (here, got) ↦ marker_here-Found marker i (c ∷ cs) line (ground (arith, e, got))
    ]

take_same : (n m : ℕ) (text : List ℕ) → n ≡ m → take n text ≡ take m text
take_same n m text e = ap (λ k. take k text) e

drop_same : (n m : ℕ) (text : List ℕ) → n ≡ m → drop n text ≡ drop m text
drop_same n m text e = ap (λ k. drop k text) e

-- A slice of another length is the one of the same length.
resized : (n m : ℕ) (text : List ℕ) → All IsTail (take n text) → n ≡ m → All IsTail (take m text)
resized n m text h e = subst (λ k. All IsTail (take k text)) e h

take_none : (n : ℕ) → take {A = ℕ} n [] ≡ []
take_none zero = refl
take_none (suc n) = refl

take_add : (p q : ℕ) (text : List ℕ) → take (p + q) text ≡ take p text ++ take q (drop p text)
take_add zero q text = take_same (0 + q) q text (omega arith)
take_add (suc p) q [] = take_none (suc p + q) ∙ sym (take_none q)
take_add (suc p) q (c ∷ cs) =
    take_same (suc p + q) (suc (p + q)) (c ∷ cs) (omega arith) ∙ ap (λ t. c ∷ t) (take_add p q cs)

take-append_more :
    (text after : List ℕ) (n : ℕ) → take (length text + n) (text ++ after) ≡ text ++ take n after
take-append_more [] after n = take_same (0 + n) n after (omega arith)
take-append_more (c ∷ cs) after n =
    take_same (length (c ∷ cs) + n) (suc (length cs + n)) (c ∷ (cs ++ after)) (omega arith)
    ∙ ap (λ t. c ∷ t) (take-append_more cs after n)

-- A slice is two slices that meet.
slice-slices :
    (a m b : ℕ) (text : List ℕ) → a ≤ m → m ≤ b → slice text a b ≡ slice text a m ++ slice text m b
slice-slices a m b text le le' =
    take_same (b - a) ((m - a) + (b - m)) (drop a text) (omega (arith, le, le'))
    ∙ (take_add (m - a) (b - m) (drop a text)
        ∙ ap (λ t. take (m - a) (drop a text) ++ take (b - m) t)
            (drop-drop a (m - a) m text (omega (arith, le))))

-- Blanks up to the end of a line.
blanks-IsTail : (text : List ℕ) → All IsTail (take (blanks text) text)
unfolding blanks
blanks-IsTail [] = tt
blanks-IsTail (c ∷ cs) = elim (Bool-cases (is_blank c)) [
  | inl here ↦
      resized (suc (blanks cs)) (blanks (c ∷ cs)) (c ∷ cs) (ground (arith, here), blanks-IsTail cs)
        (ground (arith, here))
  | inr other ↦ resized 0 (blanks (c ∷ cs)) (c ∷ cs) tt (ground (arith, other))
]

return_and_end-IsTail :
    (text : List ℕ) (n : ℕ) → return_and_end text ≡ some n → All IsTail (take n text)
unfolding return_and_end
return_and_end-IsTail text zero e = tt
return_and_end-IsTail [] (suc n) e = tt
return_and_end-IsTail (c ∷ cs) (suc zero) e = (ground (arith, e), tt)
return_and_end-IsTail (c ∷ cs) (suc (suc n)) e =
    let absurd : ⊥ = ground (arith, e) in elim absurd [ ]

blanks_and_end-IsTail :
    (text : List ℕ) (n : ℕ) → blanks_and_end text ≡ some n → All IsTail (take n text)
unfolding blanks_and_end
blanks_and_end-IsTail text n e = elim (Option-cases (return_and_end (skip_blanks text))) [
  | inl more ↦ let absurd : ⊥ = ground (arith, e, more) in elim absurd [ ]
  | inr (m, got) ↦
      let parts : take n text ≡ take (blanks text) text ++ take m (skip_blanks text) =
        take_same n (blanks text + m) text (ground (arith, e, got))
        ∙ take_add (blanks text) m text in
      subst (All IsTail) (sym parts) (
        All-append IsTail (take (blanks text) text) (take m (skip_blanks text)) (blanks-IsTail text)
          (return_and_end-IsTail (skip_blanks text) m got))
]

take-IsTail :
    (text : List ℕ) (i : ℕ) → get_elem? text i ≡ some 10 → All IsTail (take 1 (drop i text))
take-IsTail [] zero e = tt
take-IsTail [] (suc i) e = tt
take-IsTail (c ∷ cs) zero e = (ground (arith, e), tt)
take-IsTail (c ∷ cs) (suc i) e = take-IsTail cs i e

-- The line feed of a block, if it has one.
block_end-IsTail :
    (text : List ℕ) (i : ℕ) → (i ≤ block_end text i) × All IsTail (slice text i (block_end text i))
block_end-IsTail text i = elim (Option-cases (get_elem? text i)) [
  | inl ended ↦
      let stop : i ≡ block_end text i = ground (arith, ended) in
      subst (λ n. (i ≤ n) × All IsTail (slice text i n)) stop
        (omega arith, resized 0 (i - i) (drop i text) tt (omega arith))
  | inr (c, got) ↦ elim (Bool-cases (c == 10)) [
    | inl feed ↦
        let stop : suc i ≡ block_end text i = ground (arith, got, feed) in
        subst (λ n. (i ≤ n) × All IsTail (slice text i n)) stop
          (
            omega arith,
            resized 1 (suc i - i) (drop i text) (take-IsTail text i (ground (arith, got, feed)))
                (omega arith),
          )
    | inr other ↦
        let stop : i ≡ block_end text i = ground (arith, got, other) in
        subst (λ n. (i ≤ n) × All IsTail (slice text i n)) stop
          (omega arith, resized 0 (i - i) (drop i text) tt (omega arith))
  ]
]

-- The slice from the start of the one line to the end of the other, with the line feed.
slice-IsManaged :
    (markers : Markers) (text : List ℕ) (b e : MarkerLine)
    → length markers.begin ≤ length markers.ending
    → b.start ≤ e.start
    → Found markers.begin 0 text b
    → Found markers.ending 0 text e
    → IsManaged markers (slice text b.start (block_end text e.finish))
slice-IsManaged markers text b e shorter ordered (k, rest, n, starts, marked, ended, finishes)
      (k', rest', n', starts', marked', ended', finishes') =
    let stop = block_end text e.finish in
    let (later, feed) = block_end-IsTail text e.finish in
    let begins = b.start + length markers.begin in
    let at_begin : drop b.start text ≡ markers.begin ++ rest =
      drop_same b.start k text (omega (arith, starts)) ∙ marked in
    let at_end : drop e.start text ≡ markers.ending ++ rest' =
      drop_same e.start k' text (omega (arith, starts')) ∙ marked' in
    let first : slice text b.start begins ≡ markers.begin =
      take_same (begins - b.start) (length markers.begin) (drop b.start text) (omega arith)
      ∙ (ap (take (length markers.begin)) at_begin ∙ take-append markers.begin rest) in
    let last : slice text e.start e.finish ≡ markers.ending ++ take n' rest' =
      take_same (e.finish - e.start) (length markers.ending + n') (drop e.start text)
        (omega (arith, finishes'))
      ∙ (ap (take (length markers.ending + n')) at_end
          ∙ take-append_more markers.ending rest' n') in
    (
      (
        slice text begins stop,
        slice-slices b.start begins stop text (omega arith)
              (omega (arith, shorter, ordered, finishes', later))
            ∙ ap (λ t. t ++ slice text begins stop) first,
      ),
      (
        slice text b.start e.start,
        take n' rest' ++ slice text e.finish stop,
        slice-slices b.start e.start stop text ordered (omega (arith, finishes', later))
            ∙ ap (λ t. slice text b.start e.start ++ t)
                (slice-slices e.start e.finish stop text (omega (arith, finishes')) later
                  ∙ (ap (λ t. t ++ slice text e.finish stop) last
                      ∙ append_assoc markers.ending (take n' rest') (slice text e.finish stop))),
        All-append IsTail (take n' rest') (slice text e.finish stop)
            (blanks_and_end-IsTail rest' n' ended') feed,
      ),
    )

-- The block of a split is a managed block; and without a block no line has the marker of one.
abbrev pub HasBlock : Markers → List ℕ → Option (List ℕ) → Type 0
HasBlock markers content none = find_marker_line content markers.begin ≡ none
HasBlock markers content (some block) = IsManaged markers block

pub split_markers-HasBlock :
    (content : List ℕ) (markers : Markers) (split : MarkerSplit)
    → length markers.begin ≤ length markers.ending
    → split_markers content markers ≡ ok split
    → HasBlock markers content split.block
unfolding split_markers find_marker_line
split_markers-HasBlock content markers split shorter e =
    elim (Option-cases (find_marker_line content markers.begin)) [
      | inl absent ↦ elim (Option-cases (find_marker_line content markers.ending)) [
        | inl absent' ↦
            let block : none ≡ split.block = ground (arith, e, absent, absent') in
            subst (HasBlock markers content) block absent
        | inr (line, got) ↦ let absurd : ⊥ = ground (arith, e, absent, got) in elim absurd [ ]
      ]
      | inr (b, got) ↦ elim (Option-cases (find_marker_line content markers.ending)) [
        | inl absent' ↦ let absurd : ⊥ = ground (arith, e, got, absent') in elim absurd [ ]
        | inr (f, got') ↦ elim (Bool-cases (ltb f.start b.start)) [
          | inl crossed ↦ let absurd : ⊥ = ground (arith, e, got, got', crossed) in elim absurd [ ]
          | inr straight ↦
              let block : some (slice content b.start (block_end content f.finish)) ≡ split.block =
                ground (arith, e, got, got', straight) in
              subst (HasBlock markers content) block (
                slice-IsManaged markers content b f shorter (ground (arith, straight))
                  (find_from-Found markers.begin true 0 content b got)
                  (find_from-Found markers.ending true 0 content f got'))
        ]
      ]
    ]
