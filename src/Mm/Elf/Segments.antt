-- ===== src/Mm/Elf/Segments.antt =====
-- kernel/src/mm/elf/parse.rs: the loops over the program headers.
use theory_os.Base.{
  ℕ, zero, suc, ◌+◌, ◌-◌, ◌*◌, ◌/◌, Bool, not, ◌&&◌, Option, none, some, List, [], ◌∷◌, ltb, leb,
  ◌==◌, if◌then◌else◌, length, min,
}
use theory_os.Base.Bytes.{slice}
use theory_os.Mm.Elf.{
  Elf64Ehdr, Elf64Phdr, Parsed, ok, err, outside, invalid, ◌>>=◌, phdr_at, pt_load, pt_dynamic,
  pt_interp, pt_phdr, u64_max, wrap, word_at,
}

-- The segment has the bytes of the program headers.
abbrev pub covers_headers : Elf64Ehdr → Elf64Phdr → Bool
covers_headers hdr ph =
    leb ph.p_offset hdr.e_phoff
    && leb (wrap (hdr.e_phoff + hdr.e_phnum * hdr.e_phentsize)) (wrap (ph.p_offset + ph.p_filesz))

module _ (bytes : List ℕ) (hdr : Elf64Ehdr) where
  -- The first header of a type, among `n` from `i` on.
  unfoldable pub first_of : ℕ → ℕ → ℕ → Parsed (Option Elf64Phdr)
  unfolding phdr_at
  first_of p_type zero i = ok none
  first_of p_type (suc n) i = phdr_at bytes hdr i >>= λ ph.
      (let rest = first_of p_type n (i + 1) in if ph.p_type == p_type then ok (some ph) else rest)

  -- The second loop of `phdr_vaddr_in_image`.
  unfoldable pub covering : ℕ → ℕ → ℕ → Parsed ℕ
  unfolding phdr_at
  covering load_bias zero i = err invalid
  covering load_bias (suc n) i = phdr_at bytes hdr i >>= λ ph.
      (let rest = covering load_bias n (i + 1) in
        if not (ph.p_type == pt_load)
        then rest
        else if covers_headers hdr ph
        then ok (wrap (ph.p_vaddr + load_bias + (hdr.e_phoff - ph.p_offset)))
        else rest)

  unfoldable pub phdr_vaddr_in_image : ℕ → Parsed ℕ
  unfolding first_of covering
  phdr_vaddr_in_image load_bias = first_of pt_phdr hdr.e_phnum 0 >>= λ found. elim found [
    | some ph ↦ ok (wrap (ph.p_vaddr + load_bias))
    | none ↦ covering load_bias hdr.e_phnum 0
  ]

  -- The loop of `min_load_vaddr` for `n` headers from `i` on.
  unfoldable pub min_loop : ℕ → ℕ → ℕ → Parsed ℕ
  unfolding phdr_at
  min_loop zero i least = ok least
  min_loop (suc n) i least = phdr_at bytes hdr i >>= λ ph.
      min_loop n (i + 1) (if ph.p_type == pt_load then min least ph.p_vaddr else least)

  unfoldable pub min_load_vaddr : Parsed ℕ
  unfolding min_loop
  min_load_vaddr =
      min_loop hdr.e_phnum 0 u64_max >>= λ least. if least == u64_max then err invalid else ok least

-- The bytes in front of the first zero.
unfoldable pub until_nul : List ℕ → List ℕ
until_nul [] = []
until_nul (b ∷ bytes) = let rest = until_nul bytes in if b == 0 then [] else b ∷ rest

-- `&data[start..end]`, with `end` in the data.
abbrev pub checked_slice : List ℕ → ℕ → ℕ → Parsed (List ℕ)
checked_slice bytes start end =
    if ltb (length bytes) end
    then err invalid
    else if ltb end start
    then outside
    else ok (slice bytes start end)

unfoldable pub extract_interp_path : List ℕ → Elf64Ehdr → Parsed (Option (List ℕ))
unfolding first_of until_nul
extract_interp_path bytes hdr = first_of bytes hdr pt_interp hdr.e_phnum 0 >>= λ found. elim found [
  | none ↦ ok none
  | some ph ↦ checked_slice bytes ph.p_offset (wrap (ph.p_offset + ph.p_filesz)) >>= λ path.
      ok (some (until_nul path))
]

pub record DynamicInfo : Type 0 where
  pub rela : ℕ
  pub relasz : ℕ
  pub relaent : ℕ
  pub jmprel : ℕ
  pub pltrelsz : ℕ

abbrev pub no_info : DynamicInfo
no_info = record { rela = 0; relasz = 0; relaent = 24; jmprel = 0; pltrelsz = 0 }

-- One entry of the dynamic section other than DT_NULL.
abbrev pub with_tag : ℕ → ℕ → ℕ → DynamicInfo → DynamicInfo
with_tag load_bias tag val info =
    if tag == 7
    then record info { rela = wrap (val + load_bias) }
    else if tag == 8
    then record info { relasz = val }
    else if tag == 9
    then record info { relaent = val }
    else if tag == 23
    then record info { jmprel = wrap (val + load_bias) }
    else if tag == 2
    then record info { pltrelsz = val }
    else info

-- The loop over the entries up to `end`; none is the end of the fuel.
unfoldable pub dynamic_loop : List ℕ → ℕ → ℕ → ℕ → ℕ → DynamicInfo → Option (Parsed DynamicInfo)
dynamic_loop bytes load_bias end zero off info = none
dynamic_loop bytes load_bias end (suc fuel) off info =
    let rest =
      dynamic_loop bytes load_bias end fuel (off + 16)
        (with_tag load_bias (word_at bytes off 8) (word_at bytes (off + 8) 8) info) in
    if not (leb (wrap (off + 16)) end)
    then some (ok info)
    else if ltb (length bytes) (off + 16)
    then some outside
    else if word_at bytes off 8 == 0
    then some (ok info)
    else rest

-- Every round but the last is for 16 bytes of the file.
abbrev pub dynamic_fuel : List ℕ → ℕ
dynamic_fuel bytes = suc (length bytes / 16)

abbrev pub dynamic_of : List ℕ → ℕ → Elf64Phdr → Option (Parsed DynamicInfo)
dynamic_of bytes load_bias ph =
    if ltb (length bytes) (wrap (ph.p_offset + ph.p_filesz))
    then some (err invalid)
    else dynamic_loop bytes load_bias (wrap (ph.p_offset + ph.p_filesz)) (dynamic_fuel bytes)
        ph.p_offset no_info

abbrev pub some_info : Option (Parsed DynamicInfo) → Option (Parsed (Option DynamicInfo))
some_info none = none
some_info (some info) = some (info >>= λ i. ok (some i))

unfoldable pub parse_dynamic : List ℕ → Elf64Ehdr → ℕ → Option (Parsed (Option DynamicInfo))
unfolding first_of dynamic_loop
parse_dynamic bytes hdr load_bias = elim (first_of bytes hdr pt_dynamic hdr.e_phnum 0) [
  | outside ↦ some outside
  | err e ↦ some (err e)
  | ok none ↦ some (ok none)
  | ok (some ph) ↦ some_info (dynamic_of bytes load_bias ph)
]
