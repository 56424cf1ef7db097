-- ===== src/Partutil/Table/Rebuild.antt =====
-- A rebuilt line is cut in the same places, and its numbers are the ones put in.
use cos_tools.Base.{
  ℕ, false, ◌≡◌, refl, ◌∙◌, ◌≢◌, ◌<◌, some, List, arith, get_elem?, set, All, All-set,
  get_elem?-set_self, get_elem?-set_ne, set-ne-nil,
}
use cos_tools.Base.Errors.{ok}
use cos_tools.Text.{Bytes, Lacks, u64_mod, split, join, format_uint, is_digit}
use cos_tools.Text.Split.{split-join, split-Lacks_sep, join-Lacks}
use cos_tools.Text.Decimal.{
  format_uint-AreDigits, digits-Lacks, trim_space-digits, parse_uint-format_uint,
}
use cos_tools.Partutil.Table.{
  PartContent, LineParts, read_number, read_parts, cut_info, cut_line, rebuild_line,
}
use cos_tools.Partutil.Table.Line.{Cuts, part_info-Lacks, start_sec-Lacks, size_sec-Lacks}

abbrev pub rebuilt_start : LineParts → PartContent → List Bytes
rebuilt_start k p = set k.start_sec 1 (format_uint p.start)

abbrev pub rebuilt_size : LineParts → PartContent → List Bytes
rebuilt_size k p = set k.size_sec 1 (format_uint p.size)

abbrev pub rebuilt_info : LineParts → PartContent → List Bytes
rebuilt_info k p =
    set (set k.part_info 0 (join (rebuilt_start k p) b'=')) 1 (join (rebuilt_size k p) b'=')

abbrev pub rebuilt_content : LineParts → PartContent → List Bytes
rebuilt_content k p = set k.content 1 (join (rebuilt_info k p) b',')

format-Lacks : (b n : ℕ) → is_digit b ≡ false → Lacks b (format_uint n)
format-Lacks b n h = digits-Lacks b (format_uint n) h (format_uint-AreDigits n)

module _ {line : Bytes} {k : LineParts} (c : Cuts line k) (p : PartContent) where
  module _ (b : ℕ) (not_digit : is_digit b ≡ false) (ne : b'=' ≢ b) where
    -- A byte that the entries lack, the rebuilt entries lack.
    rebuilt_info-Lacks : All (Lacks b) k.part_info → All (Lacks b) (rebuilt_info k p)
    rebuilt_info-Lacks h =
        All-set (Lacks b) _ 1 _
          (All-set (Lacks b) _ 0 _ h (
            join-Lacks b _ b'=' ne
              (All-set (Lacks b) _ 1 _ (start_sec-Lacks b c h) (format-Lacks b p.start not_digit))))
          (join-Lacks b _ b'=' ne
            (All-set (Lacks b) _ 1 _ (size_sec-Lacks b c h) (format-Lacks b p.size not_digit)))

    pub rebuilt_content-Lacks :
        b',' ≢ b → All (Lacks b) k.content → All (Lacks b) (rebuilt_content k p)
    rebuilt_content-Lacks ne' h =
        All-set (Lacks b) _ 1 _ h
          (join-Lacks b _ b',' ne' (rebuilt_info-Lacks (part_info-Lacks b c h)))

  split-rebuild_line : split (rebuild_line k p) b':' ≡ rebuilt_content k p
  unfolding rebuild_line is_digit
  split-rebuild_line = split-join (rebuilt_content k p) b':' (set-ne-nil k.content 1 _ c.info_at) (
      rebuilt_content-Lacks b':' refl (omega arith) (omega arith)
        (rw (← c.content_eq) (split-Lacks_sep line b':')))

  split-rebuilt_info : split (join (rebuilt_info k p) b',') b',' ≡ rebuilt_info k p
  unfolding is_digit
  split-rebuilt_info =
      split-join (rebuilt_info k p) b','
        (set-ne-nil (set k.part_info 0 _) 1 _ (second_kept c.second_at))
        (rebuilt_info-Lacks b',' refl (omega arith)
          (rw (← c.part_info_eq) (split-Lacks_sep c.info b',')))
    where
      second_kept :
          {x : Bytes}
          → get_elem? k.part_info 1 ≡ some x
          → get_elem? (set k.part_info 0 (join (rebuilt_start k p) b'=')) 1 ≡ some x
      second_kept e = get_elem?-set_ne k.part_info 0 1 _ (omega arith) ∙ e

  read_number-formatted :
      (sec : List Bytes) (n : ℕ) {x : Bytes}
      → get_elem? sec 1 ≡ some x
      → n < u64_mod
      → read_number (set sec 1 (format_uint n)) ≡ ok n
  unfolding read_number
  read_number-formatted sec n e fits = rw (
    get_elem?-set_self sec 1 (format_uint n) e,
    trim_space-digits _ (format_uint-AreDigits n),
    parse_uint-format_uint n fits,
  )

  first_rebuilt : get_elem? (rebuilt_info k p) 0 ≡ some (join (rebuilt_start k p) b'=')
  first_rebuilt =
      get_elem?-set_ne (set k.part_info 0 _) 1 0 _ (omega arith)
      ∙ get_elem?-set_self k.part_info 0 _ c.first_at

  second_rebuilt : get_elem? (rebuilt_info k p) 1 ≡ some (join (rebuilt_size k p) b'=')
  second_rebuilt =
      get_elem?-set_self (set k.part_info 0 _) 1 _
        (get_elem?-set_ne k.part_info 0 1 _ (omega arith) ∙ c.second_at)

  split-rebuilt_start : split (join (rebuilt_start k p) b'=') b'=' ≡ rebuilt_start k p
  unfolding is_digit
  split-rebuilt_start =
      split-join (rebuilt_start k p) b'=' (set-ne-nil k.start_sec 1 _ c.start_at) (
        All-set (Lacks b'=') _ 1 _ (rw (← c.start_sec_eq) (split-Lacks_sep c.first b'='))
          (format-Lacks b'=' p.start refl))

  split-rebuilt_size : split (join (rebuilt_size k p) b'=') b'=' ≡ rebuilt_size k p
  unfolding is_digit
  split-rebuilt_size = split-join (rebuilt_size k p) b'=' (set-ne-nil k.size_sec 1 _ c.size_at) (
      All-set (Lacks b'=') _ 1 _ (rw (← c.size_sec_eq) (split-Lacks_sep c.second b'='))
        (format-Lacks b'=' p.size refl))

  -- Cutting a rebuilt line gives the numbers that were put in.
  pub cut_line-rebuild_line :
      p.start < u64_mod
      → p.size < u64_mod
      → cut_line (rebuild_line k p)
        ≡ ok (record {
          content = rebuilt_content k p;
          part_info = rebuilt_info k p;
          start_sec = rebuilt_start k p;
          size_sec = rebuilt_size k p;
          part = p;
        })
  unfolding cut_line cut_info read_parts
  cut_line-rebuild_line hs hz = rw (
    split-rebuild_line,
    get_elem?-set_self k.content 1 _ c.info_at,
    split-rebuilt_info,
    first_rebuilt,
    second_rebuilt,
    split-rebuilt_start,
    split-rebuilt_size,
    read_number-formatted k.start_sec p.start c.start_at hs,
    read_number-formatted k.size_sec p.size c.size_at hz,
  )
