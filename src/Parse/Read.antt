-- ===== src/Parse/Read.antt =====
-- iw_parse_find_token, iw_parse_is_token and iw_parse_read_to_token against the first place of the
-- token, and the text that an index stands for.
use insta_works.Base.{
  ℕ, ◌+◌, ◌-◌, ◌≤◌, get_or, ◌^◌, ◌<◌, ◌≡◌, refl, Bool, true, false, Bool-cases, inl, inr, Option,
  none, some, List, [], ◌∷◌, arith, u32, ltb, length,
}
use insta_works.Parse.Scan.{NoToken, IsFirst, scan_ends}
use insta_works.Parse.{
  is_blank, trim_start, trim_end, ParseIndex, token_at, find_token, index_of, read_to_token,
}

module _ (buff : List ℕ) (len offset : ℕ) (token : List ℕ) where
  -- How a search that returns the offset behind the token must end.
  pub data Finds : Option ℕ → Type 0 where
    missing : NoToken buff len token offset → Finds none
    found : (p : ℕ) → IsFirst buff len token offset p → Finds (some (p + length token))

  -- iw_parse_find_token, where the length and the offset do not overflow 32 bits, returns no match exactly if the token stands nowhere from the offset to the
  -- length of the buffer; else the new offset lies behind its first place.
  pub find_token-Finds :
      len + 1 < 2 ^ 32 → offset + length token < 2 ^ 32 → Finds (find_token buff len offset token)
  unfolding find_token
  find_token-Finds small less = elim (scan_ends buff len token offset small less) [
    | inl (p, e, past, bound, absent) ↦ rw e (missing absent)
    | inr (p, e, first) ↦
        let sum : u32 (p + length token) ≡ p + length token = omega (arith, first.within) in
        rw (e, sum) (found p first)
  ]

  -- What iw_parse_read_to_token returns, by the index that it makes of the text.
  pub data Locates (trim : Bool) : Option (ℕ × ParseIndex) → Type 0 where
    missing_place : NoToken buff len token offset → Locates trim none
    located :
        (p : ℕ)
        → IsFirst buff len token offset p
        → Locates trim (some (p + length token, index_of buff trim offset p))

  pub read_to_token-Locates :
      (trim : Bool)
      → len + 1 < 2 ^ 32
      → offset + length token < 2 ^ 32
      → Locates trim (read_to_token buff len offset token trim)
  unfolding read_to_token
  read_to_token-Locates trim small less = elim (scan_ends buff len token offset small less) [
    | inl (p, e, past, bound, absent) ↦
        let sum : u32 (p + length token) ≡ p + length token = omega arith in
        let test : ltb len (p + length token) ≡ true = ground arith in
        rw (e, sum, test) (missing_place absent)
    | inr (p, e, first) ↦
        let sum : u32 (p + length token) ≡ p + length token = omega (arith, first.within) in
        let test : ltb len (p + length token) ≡ false = ground (arith, first.within) in
        rw (e, sum, test) (located p first)
  ]

  -- The index of the text between the offset and a place: as it is, or without a blank at its start, and
  -- then without a blank at its end.
  pub data Spans (p : ℕ) (i : ParseIndex) : Bool → Type 0 where
    whole : i.start ≡ offset → i.start + i.len ≡ p → Spans p i false
    trimmed :
        (is_blank (get_or buff offset 0) ≡ true → offset < p → i.start ≡ offset + 1)
        → (is_blank (get_or buff offset 0) ≡ false → i.start ≡ offset)
        → (offset ≡ p → i.start ≡ offset)
        → (i.start < p → is_blank (get_or buff (p - 1) 0) ≡ true → i.start + i.len + 1 ≡ p)
        → (is_blank (get_or buff (p - 1) 0) ≡ false → i.start + i.len ≡ p)
        → (i.start ≡ p → i.len ≡ 0)
        → Spans p i true

  -- What iw_parse_read_to_token returns: the text from the offset to the first token, trimmed or not.
  pub data Reads (trim : Bool) : Option (ℕ × ParseIndex) → Type 0 where
    missing_token : NoToken buff len token offset → Reads trim none
    read :
        (p : ℕ) (i : ParseIndex)
        → IsFirst buff len token offset p
        → Spans p i trim
        → Reads trim (some (p + length token, i))

  index_of-Spans :
      (trim : Bool) (p : ℕ) → offset ≤ p → p < 2 ^ 32 → Spans p (index_of buff trim offset p) trim
  unfolding index_of trim_start trim_end
  index_of-Spans false p le small = whole (omega arith) (omega arith)
  index_of-Spans true p le small =
      trimmed (λ b lt. ground arith) (λ b. ground arith) (λ e. ground arith) (λ lt b. ground arith)
        (λ b. ground arith) (λ e. ground arith)

  -- iw_parse_read_to_token, where the length and the offset do not overflow 32 bits, returns no match
  -- exactly if the token stands nowhere from the offset to the length of the buffer; else the new
  -- offset lies behind its first place, and the index is that
  -- of the text before it, from the offset on; with trimming, without a blank at its start, and then
  -- without one at its end, if these are there.
  pub read_to_token-Reads :
      (trim : Bool)
      → len + 1 < 2 ^ 32
      → offset + length token < 2 ^ 32
      → Reads trim (read_to_token buff len offset token trim)
  read_to_token-Reads trim small less = spans _ (read_to_token-Locates trim small less)
    where
      spans : (o : Option (ℕ × ParseIndex)) → Locates trim o → Reads trim o
      spans none (missing_place absent) = missing_token absent
      spans (some r) (located p first) =
          read p (index_of buff trim offset p) first
            (index_of-Spans trim p first.after (omega (arith, first.within)))

-- Reading to a token whose first place is known.
pub read_first :
    (buff : List ℕ) (len start p : ℕ) (token : List ℕ) (trim : Bool)
    → len + 1 < 2 ^ 32
    → IsFirst buff len token start p
    → start + length token < 2 ^ 32
    → read_to_token buff len start token trim ≡ some (p + length token, index_of buff trim start p)
unfolding NoToken
read_first buff len start p token trim small first less =
    places _ (read_to_token-Locates buff len start token trim small less)
  where
    places :
        (o : Option (ℕ × ParseIndex))
        → Locates buff len start token trim o
        → o ≡ some (p + length token, index_of buff trim start p)
    places none (missing_place absent) =
        let no : token_at buff token p ≡ false = absent p first.after first.within in
        absurd (ground (arith, first.there))
    places (some r) (located p' first') =
        let same : p' ≡ p = elim (Bool-cases (ltb p p')) [
          | inl l ↦
              let no : token_at buff token p ≡ false = first'.first p first.after (ground arith) in
              absurd (ground (arith, first.there))
          | inr l ↦ elim (Bool-cases (ltb p' p)) [
            | inl m ↦
                let no : token_at buff token p' ≡ false =
                  first.first p' first'.after (ground arith) in
                absurd (ground (arith, first'.there))
            | inr m ↦ ground arith
          ]
        ] in
        rw same refl

-- Reading a token of one byte from the end on.
pub read_past :
    (buff : List ℕ) (len c : ℕ)
    → len + 2 < 2 ^ 32
    → read_to_token buff len len (c ∷ []) false ≡ none
read_past buff len c small =
    past _ (read_to_token-Locates buff len len (c ∷ []) false (omega arith) (omega arith))
  where
    past : (o : Option (ℕ × ParseIndex)) → Locates buff len len (c ∷ []) false o → o ≡ none
    past none r = refl
    past (some r) (located p first) = absurd (omega (arith, first.after, first.within))
