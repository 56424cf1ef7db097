-- ===== src/Partutil/Table/Line.antt =====
-- One line of a partition table, cut and rebuilt.
use cos_tools.Base.{
  ℕ, ◌≡◌, sym, ◌∙◌, ap, some, List, inl, inr, Option-cases, arith, get_elem?, All, All-get_elem?,
}
use cos_tools.Base.Errors.{ok, ok_of_bind, or_panic, or_panic-eq-ok, or_fail-eq-ok}
use cos_tools.Text.{Bytes, Lacks, split, trim_space, parse_uint}
use cos_tools.Text.Split.{split-Lacks}
use cos_tools.Partutil.Table.{LineParts, read_number, read_parts, cut_info, cut_line}

-- How the parts of a line that was cut without error hang together.
pub record Cuts (line : Bytes) (k : LineParts) : Type 0 where
  pub info : Bytes
  pub first : Bytes
  pub second : Bytes
  pub start_text : Bytes
  pub size_text : Bytes
  pub content_eq : split line b':' ≡ k.content
  pub info_at : get_elem? k.content 1 ≡ some info
  pub part_info_eq : split info b',' ≡ k.part_info
  pub first_at : get_elem? k.part_info 0 ≡ some first
  pub start_sec_eq : split first b'=' ≡ k.start_sec
  pub second_at : get_elem? k.part_info 1 ≡ some second
  pub size_sec_eq : split second b'=' ≡ k.size_sec
  pub start_at : get_elem? k.start_sec 1 ≡ some start_text
  pub start_read : parse_uint (trim_space start_text) ≡ some k.part.start
  pub size_at : get_elem? k.size_sec 1 ≡ some size_text
  pub size_read : parse_uint (trim_space size_text) ≡ some k.part.size

read_number-eq-ok :
    (sec : List Bytes) (n : ℕ)
    → read_number sec ≡ ok n
    → (text : Bytes) × (get_elem? sec 1 ≡ some text) × (parse_uint (trim_space text) ≡ some n)
unfolding read_number
read_number-eq-ok sec n h =
    let (text, e, h') = ok_of_bind _ (or_panic (get_elem? sec 1)) h in
    (text, or_panic-eq-ok _ e, or_fail-eq-ok _ h')

module _ (k : LineParts) where
  read_parts-eq-ok :
      (content part_info start_sec size_sec : List Bytes)
      → read_parts content part_info start_sec size_sec ≡ ok k
      → (read_number start_sec ≡ ok k.part.start)
        × (read_number size_sec ≡ ok k.part.size)
        × (content ≡ k.content)
        × (part_info ≡ k.part_info)
        × (start_sec ≡ k.start_sec)
        × (size_sec ≡ k.size_sec)
  unfolding read_parts
  read_parts-eq-ok content part_info start_sec size_sec h = ground arith

  cut_info-eq-ok :
      (content part_info : List Bytes)
      → cut_info content part_info ≡ ok k
      → (first second : Bytes) × (get_elem? part_info 0 ≡ some first)
        × (get_elem? part_info 1 ≡ some second)
        × (read_parts content part_info (split first b'=') (split second b'=') ≡ ok k)
  unfolding cut_info
  cut_info-eq-ok content part_info h = elim (Option-cases (get_elem? part_info 0)) [
    | inl e ↦ ground arith
    | inr (first, e) ↦ elim (Option-cases (get_elem? part_info 1)) [
      | inl e' ↦ ground arith
      | inr (second, e') ↦ (first, second, e, e', ground arith)
    ]
  ]

  assemble :
      (line info first second : Bytes)
      → get_elem? (split line b':') 1 ≡ some info
      → get_elem? (split info b',') 0 ≡ some first
      → get_elem? (split info b',') 1 ≡ some second
      → read_parts (split line b':') (split info b',') (split first b'=') (split second b'=') ≡ ok k
      → Cuts line k
  assemble line info first second e e0 e1 r =
      let (rs, rz, ec, ep, es, ez) = read_parts-eq-ok _ _ _ _ r in
      let (start_text, sat, sread) = read_number-eq-ok _ _ rs in
      let (size_text, zat, zread) = read_number-eq-ok _ _ rz in
      record {
        info = info;
        first = first;
        second = second;
        start_text = start_text;
        size_text = size_text;
        content_eq = ec;
        info_at = ap (λ c. get_elem? c 1) (sym ec) ∙ e;
        part_info_eq = ep;
        first_at = ap (λ c. get_elem? c 0) (sym ep) ∙ e0;
        start_sec_eq = es;
        second_at = ap (λ c. get_elem? c 1) (sym ep) ∙ e1;
        size_sec_eq = ez;
        start_at = ap (λ c. get_elem? c 1) (sym es) ∙ sat;
        start_read = sread;
        size_at = ap (λ c. get_elem? c 1) (sym ez) ∙ zat;
        size_read = zread;
      }

  pub cut_line-Cuts : (line : Bytes) → cut_line line ≡ ok k → Cuts line k
  unfolding cut_line
  cut_line-Cuts line h = elim (Option-cases (get_elem? (split line b':') 1)) [
    | inl e ↦ absurd (ground arith)
    | inr (info, e) ↦
        let (first, second, e0, e1, r) =
          cut_info-eq-ok (split line b':') (split info b',') (ground arith) in
        assemble line info first second e e0 e1 r
  ]

-- What no part of the line may hold for the rebuilt line to be cut in the same places.
module _ (b : ℕ) where
  pub part_info-Lacks :
      {line : Bytes} {k : LineParts}
      → Cuts line k
      → All (Lacks b) k.content
      → All (Lacks b) k.part_info
  part_info-Lacks c h =
      rw (← c.part_info_eq) (split-Lacks b c.info b',' (All-get_elem? (Lacks b) _ 1 h c.info_at))

  pub start_sec-Lacks :
      {line : Bytes} {k : LineParts}
      → Cuts line k
      → All (Lacks b) k.part_info
      → All (Lacks b) k.start_sec
  start_sec-Lacks c h =
      rw (← c.start_sec_eq) (split-Lacks b c.first b'=' (All-get_elem? (Lacks b) _ 0 h c.first_at))

  pub size_sec-Lacks :
      {line : Bytes} {k : LineParts}
      → Cuts line k
      → All (Lacks b) k.part_info
      → All (Lacks b) k.size_sec
  size_sec-Lacks c h =
      rw (← c.size_sec_eq) (split-Lacks b c.second b'=' (All-get_elem? (Lacks b) _ 1 h c.second_at))
