-- ===== src/Parse/Slice.antt =====
-- The text that an index of iw_parse_read_to_token stands for, and what trimming takes off it.
use insta_works.Base.{
  ◌^◌, u32, ℕ, zero, suc, ◌+◌, ◌-◌, ◌≤◌, ◌<◌, ◌≡◌, ◌↔◌, refl, sym, ap, ◌∙◌, Bool, true, false,
  Bool-cases, inl, inr, List, [], ◌∷◌, arith, if◌then◌else◌, ltb, length, take, drop, get_or,
  length-take, length-drop,
}
use insta_works.Parse.Scan.{IsString, strncmp_eq-take}
use insta_works.Parse.{ParseIndex, is_blank, strncmp_eq, trim_start, trim_end, index_of, cmp}

-- The text of an index.
abbrev pub slice : List ℕ → ParseIndex → List ℕ
slice buff i = take i.len (drop i.start buff)

-- A text less one blank at its front, and less one at its end.
abbrev pub drop_blank : List ℕ → List ℕ
drop_blank [] = []
drop_blank (c ∷ cs) = if is_blank c then cs else c ∷ cs

abbrev pub drop_last_blank : List ℕ → List ℕ
drop_last_blank [] = []
drop_last_blank (c ∷ []) = if is_blank c then [] else c ∷ []
drop_last_blank (c ∷ d ∷ ds) = c ∷ drop_last_blank (d ∷ ds)

drop-get_or :
    (start : ℕ) (l : List ℕ)
    → start < length l
    → drop start l ≡ get_or l start 0 ∷ drop (start + 1) l
drop-get_or start [] lt = absurd (omega arith)
drop-get_or zero (x ∷ l) lt = refl
drop-get_or (suc start) (x ∷ l) lt =
    let next : suc start + 1 ≡ suc (start + 1) = omega arith in
    rw next (drop-get_or start l (omega arith))

get_or-drop : (start i : ℕ) (l : List ℕ) → get_or (drop start l) i 0 ≡ get_or l (start + i) 0
get_or-drop zero i l = let same : 0 + i ≡ i = omega arith in rw same
get_or-drop (suc start) i [] = refl
get_or-drop (suc start) i (x ∷ l) =
    let next : suc start + i ≡ suc (start + i) = omega arith in rw next (get_or-drop start i l)

drop_blank-take :
    (n : ℕ) (c : ℕ) (l : List ℕ)
    → drop_blank (take (suc n) (c ∷ l)) ≡ (if is_blank c then take n l else take (suc n) (c ∷ l))
drop_blank-take n c l = refl

drop_last_blank-take :
    (n : ℕ) (l : List ℕ)
    → suc n ≤ length l
    → drop_last_blank (take (suc n) l)
      ≡ (if is_blank (get_or l n 0) then take n l else take (suc n) l)
drop_last_blank-take n [] le = absurd (omega arith)
drop_last_blank-take zero (c ∷ l) le = refl
drop_last_blank-take (suc n) (c ∷ []) le = absurd (omega arith)
drop_last_blank-take (suc n) (c ∷ d ∷ l) le =
    ground (arith, drop_last_blank-take n (d ∷ l) (omega arith))

-- The end of the text that starts at `start` and has `n` bytes.
trim_end-slice :
    (buff : List ℕ) (start n : ℕ)
    → start + n ≤ length buff
    → take (trim_end buff start (start + n) - start) (drop start buff)
      ≡ drop_last_blank (take n (drop start buff))
unfolding trim_end
trim_end-slice buff start zero le =
    let test : ltb start (start + 0) ≡ false = ground arith in
    let nothing : start + 0 - start ≡ 0 = omega arith in rw (trim_end, test, nothing)
trim_end-slice buff start (suc n) le =
    let test : ltb start (start + suc n) ≡ true = ground arith in
    let last : get_or buff (start + suc n - 1) 0 ≡ get_or (drop start buff) n 0 =
      let at : start + suc n - 1 ≡ start + n = omega arith in
      rw at (sym (get_or-drop start n buff)) in
    let whole : start + suc n - start ≡ suc n = omega arith in
    let less : start + suc n - 1 - start ≡ n = omega arith in
    rw (drop_last_blank-take n (drop start buff) (omega (arith, length-drop start buff)))
      (elim (Bool-cases (is_blank (get_or (drop start buff) n 0))) [
        | inl e ↦ rw (trim_end, test, last, e, less)
        | inr e ↦ rw (trim_end, test, last, e, whole)
      ])

-- The index without the conversions to `int`.
unfoldable uncut : List ℕ → Bool → ℕ → ℕ → ParseIndex
unfolding trim_start trim_end
uncut buff false start end = record { start = start; len = end - start }
uncut buff true start end =
    let start' = trim_start buff start end in
    record { start = start'; len = trim_end buff start' end - start' }

index_of-uncut :
    (buff : List ℕ) (trim : Bool) (start end : ℕ)
    → start ≤ end
    → end < 2 ^ 32
    → index_of buff trim start end ≡ uncut buff trim start end
unfolding index_of uncut trim_start trim_end
index_of-uncut buff false start end le small =
    let first : u32 start ≡ start = omega arith in
    let same : u32 (end - start) ≡ end - start = omega arith in rw (first, same) refl
index_of-uncut buff true start end le small =
    let start' = trim_start buff start end in
    let first : u32 start' ≡ start' = ground arith in
    let same : u32 (trim_end buff start' end - start') ≡ trim_end buff start' end - start' =
      ground arith in
    ap (λ a. record { start = a; len = u32 (trim_end buff start' end - start') }) first
    ∙ ap (λ b. record { start = start'; len = b }) same

uncut-slice :
    (buff : List ℕ) (trim : Bool) (start n : ℕ)
    → start + n ≤ length buff
    → slice buff (uncut buff trim start (start + n)) ≡ (
        let text = take n (drop start buff) in
        if trim then drop_last_blank (drop_blank text) else text)
unfolding uncut trim_start
uncut-slice buff false start n le = let same : start + n - start ≡ n = omega arith in rw same
uncut-slice buff true start zero le =
    let test : ltb start (start + 0) ≡ false = ground arith in
    let kept : trim_start buff start (start + 0) ≡ start = ground arith in
    rw kept (trim_end-slice buff start 0 le)
uncut-slice buff true start (suc n) le =
    let test : ltb start (start + suc n) ≡ true = ground arith in
    let shift : start + suc n ≡ start + 1 + n = omega arith in
    elim (Bool-cases (is_blank (get_or buff start 0))) [
      | inl e ↦
          let moved : trim_start buff start (start + suc n) ≡ start + 1 =
            rw (trim_start, e, test) in
          rw (moved, drop-get_or start buff (omega arith), e, shift)
            (trim_end-slice buff (start + 1) n (omega arith))
      | inr e ↦
          let kept : trim_start buff start (start + suc n) ≡ start = rw (trim_start, e) in
          let same : drop_blank (take (suc n) (drop start buff)) ≡ take (suc n) (drop start buff) =
            rw (drop-get_or start buff (omega arith), e) in
          rw (kept, same) (trim_end-slice buff start (suc n) le)
    ]

-- The index that iw_parse_read_to_token makes of a text inside the buffer stands for that text; with
-- trimming, for the text less one blank at its start and then one at its end, if these are there.
pub index_of-slice :
    (buff : List ℕ) (trim : Bool) (start n : ℕ)
    → start + n ≤ length buff
    → start + n < 2 ^ 32
    → slice buff (index_of buff trim start (start + n)) ≡ (
        let text = take n (drop start buff) in
        if trim then drop_last_blank (drop_blank text) else text)
index_of-slice buff trim start n le small =
    ap (slice buff) (index_of-uncut buff trim start (start + n) (omega arith) small)
    ∙ uncut-slice buff trim start n le

-- The index lies within the text, and begins at most one byte into it.
pub index_of_bounds :
    (buff : List ℕ) (trim : Bool) (start end : ℕ)
    → start ≤ end
    → end < 2 ^ 32
    → let i = index_of buff trim start end in
      (start ≤ i.start) × (i.start ≤ start + 1) × (i.start + i.len ≤ end)
unfolding index_of trim_start trim_end
index_of_bounds buff false start end le small = omega arith
index_of_bounds buff true start end le small = ground arith

strncmp_eq_symm : (n : ℕ) (xs ys : List ℕ) → strncmp_eq n xs ys ≡ strncmp_eq n ys xs
unfolding strncmp_eq
strncmp_eq_symm zero xs ys = refl
strncmp_eq_symm (suc n) [] [] = refl
strncmp_eq_symm (suc n) [] (y ∷ ys) = refl
strncmp_eq_symm (suc n) (x ∷ xs) [] = refl
strncmp_eq_symm (suc n) (x ∷ xs) (y ∷ ys) = ground (arith, strncmp_eq_symm n xs ys)

-- iw_parse_cmp with a string without NUL bytes, on an index that lies in the buffer, is true exactly if
-- the text of the index is that string.
pub cmp-slice :
    (compare buff : List ℕ) (i : ParseIndex)
    → IsString compare
    → i.start + i.len ≤ length buff
    → (cmp compare buff i ≡ true) ↔ (slice buff i ≡ compare)
unfolding cmp
cmp-slice compare buff i s le =
    let prefix = strncmp_eq-take (drop i.start buff) compare s in
    let flip = strncmp_eq_symm (length compare) compare (drop i.start buff) in
    (
      (λ e.
          let same : length compare ≡ i.len = ground arith in
          rw (← same) (prefix.0 (ground (arith, flip)))),
      (λ e.
          let long = length-take i.len (drop i.start buff) in
          let same : length compare ≡ i.len =
            omega (arith, ap length e, long, length-drop i.start buff) in
          let whole : strncmp_eq (length compare) compare (drop i.start buff) ≡ true =
            rw flip (prefix.1 (rw same e)) in
          ground arith),
    )
