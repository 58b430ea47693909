-- ===== src/Mm/Elf/Header.antt =====
-- Headers written in little-endian words are what parsing gives back.
use theory_os.Base.{ℕ, ◌^◌, ◌≤◌, ◌<◌, ◌≡◌, refl, ap, arith, false, List, [], ◌∷◌, ◌++◌, ltb, length}
use theory_os.Base.Bytes.{to_le_bytes, from_le_bytes, from_le_bytes-to_le_bytes, Cells, on_cells}
use theory_os.Mm.Elf.{Elf64Ehdr, ok, parse_ehdr, read_ehdr}

-- The header as the file format lays it out.
abbrev pub header_bytes : Elf64Ehdr → List ℕ
header_bytes h =
    h.e_ident
    ++ to_le_bytes 2 h.e_type
    ++ to_le_bytes 2 h.e_machine
    ++ to_le_bytes 4 h.e_version
    ++ to_le_bytes 8 h.e_entry
    ++ to_le_bytes 8 h.e_phoff
    ++ to_le_bytes 8 h.e_shoff
    ++ to_le_bytes 4 h.e_flags
    ++ to_le_bytes 2 h.e_ehsize
    ++ to_le_bytes 2 h.e_phentsize
    ++ to_le_bytes 2 h.e_phnum
    ++ to_le_bytes 2 h.e_shentsize
    ++ to_le_bytes 2 h.e_shnum
    ++ to_le_bytes 2 h.e_shstrndx

-- The fields fit their types.
pub record IsHeader (h : Elf64Ehdr) : Type 0 where
  pub ident : length h.e_ident ≡ 16
  pub type_fits : h.e_type < 256 ^ 2
  pub machine : h.e_machine < 256 ^ 2
  pub version : h.e_version < 256 ^ 4
  pub entry : h.e_entry < 256 ^ 8
  pub phoff : h.e_phoff < 256 ^ 8
  pub shoff : h.e_shoff < 256 ^ 8
  pub flags : h.e_flags < 256 ^ 4
  pub ehsize : h.e_ehsize < 256 ^ 2
  pub phentsize : h.e_phentsize < 256 ^ 2
  pub phnum : h.e_phnum < 256 ^ 2
  pub shentsize : h.e_shentsize < 256 ^ 2
  pub shnum : h.e_shnum < 256 ^ 2
  pub shstrndx : h.e_shstrndx < 256 ^ 2

length_named :
    (h : Elf64Ehdr) (rest : List ℕ)
    → Cells 16 (λ ident.
      length ident ≡ 16 → 64 ≤ length (header_bytes (record h { e_ident = ident }) ++ rest))
length_named h rest b0 b1 b2 b3 b4 b5 b6 b7 b8 b9 b10 b11 b12 b13 b14 b15 (x ∷ more) e =
    absurd (omega (arith, e))
length_named h rest b0 b1 b2 b3 b4 b5 b6 b7 b8 b9 b10 b11 b12 b13 b14 b15 [] e = omega arith

length-header_bytes :
    (h : Elf64Ehdr) (rest : List ℕ) → length h.e_ident ≡ 16 → 64 ≤ length (header_bytes h ++ rest)
length-header_bytes h rest e =
    on_cells 16
      (λ ident.
        length ident ≡ 16 → 64 ≤ length (header_bytes (record h { e_ident = ident }) ++ rest))
      (length_named h rest) h.e_ident (omega (arith, e)) e

word : (n v : ℕ) → v < 256 ^ n → from_le_bytes (to_le_bytes n v) ≡ v
word = from_le_bytes-to_le_bytes

-- The header with the sixteen bytes named.
read_named :
    (h : Elf64Ehdr) (rest : List ℕ)
    → IsHeader h
    → Cells 16 (λ ident.
      length ident ≡ 16
      → read_ehdr (header_bytes (record h { e_ident = ident }) ++ rest)
        ≡ record h { e_ident = ident })
read_named h rest fits b0 b1 b2 b3 b4 b5 b6 b7 b8 b9 b10 b11 b12 b13 b14 b15 (x ∷ more) e =
    absurd (omega (arith, e))
read_named h rest fits b0 b1 b2 b3 b4 b5 b6 b7 b8 b9 b10 b11 b12 b13 b14 b15 [] e =
    rw
      (
        word 2 h.e_type fits.type_fits,
        word 2 h.e_machine fits.machine,
        word 4 h.e_version fits.version,
        word 8 h.e_entry fits.entry,
        word 8 h.e_phoff fits.phoff,
        word 8 h.e_shoff fits.shoff,
        word 4 h.e_flags fits.flags,
        word 2 h.e_ehsize fits.ehsize,
        word 2 h.e_phentsize fits.phentsize,
        word 2 h.e_phnum fits.phnum,
        word 2 h.e_shentsize fits.shentsize,
        word 2 h.e_shnum fits.shnum,
        word 2 h.e_shstrndx fits.shstrndx,
      )
      refl

-- A header at the front of a file is what `parse_ehdr` reads, whatever stands behind it.
pub parse_ehdr-header_bytes :
    (h : Elf64Ehdr) (rest : List ℕ) → IsHeader h → parse_ehdr (header_bytes h ++ rest) ≡ ok h
unfolding parse_ehdr
parse_ehdr-header_bytes h rest fits =
    let long : ltb (length (header_bytes h ++ rest)) 64 ≡ false =
      ground (arith, length-header_bytes h rest fits.ident) in
    rw long (
      ap ok (
        on_cells 16
          (λ ident.
            length ident ≡ 16
            → read_ehdr (header_bytes (record h { e_ident = ident }) ++ rest)
              ≡ record h { e_ident = ident })
          (read_named h rest fits) h.e_ident (omega (arith, fits.ident)) fits.ident))
