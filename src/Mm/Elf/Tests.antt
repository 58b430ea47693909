-- ===== src/Mm/Elf/Tests.antt =====
-- A file with one loaded segment, a script and a relocation table, and the theorems there.
use theory_os.Base.{
  ℕ, ◌+◌, ◌%◌, ◌^◌, ◌≤◌, ◌<◌, ◌≡◌, ◌≢◌, refl, arith, false, none, List, [], ◌∷◌, ◌++◌,
}
use theory_os.Base.Bytes.{to_le_bytes}
use theory_os.Mm.Elf.{
  Elf64Ehdr, Elf64Phdr, ok, parse_ehdr, validate_hdr, phdr_at, elf_magic, pt_load, et_exec,
  em_x86_64,
}
use theory_os.Mm.Elf.Header.{header_bytes, IsHeader, parse_ehdr-header_bytes}
use theory_os.Mm.Elf.Segments.{min_load_vaddr, parse_dynamic}
use theory_os.Mm.Elf.Found.{min_load_vaddr_lem, parse_dynamic-some}
use theory_os.Mm.Elf.Relocate.{
  Elf64Rela, Words, put, apply_rela_table, apply_rela_table_lem, Untouched,
}

abbrev header : Elf64Ehdr
header = record {
  e_ident = elf_magic ++ (2 ∷ 1 ∷ 1 ∷ 0 ∷ 0 ∷ 0 ∷ 0 ∷ 0 ∷ 0 ∷ 0 ∷ 0 ∷ 0 ∷ []);
  e_type = et_exec;
  e_machine = em_x86_64;
  e_version = 0;
  e_entry = 0x400000;
  e_phoff = 64;
  e_shoff = 0;
  e_flags = 0;
  e_ehsize = 64;
  e_phentsize = 56;
  e_phnum = 1;
  e_shentsize = 0;
  e_shnum = 0;
  e_shstrndx = 0;
}

header-IsHeader : IsHeader header
header-IsHeader = record {
  ident = refl;
  type_fits = omega arith;
  machine = omega arith;
  version = omega arith;
  entry = omega arith;
  phoff = omega arith;
  shoff = omega arith;
  flags = omega arith;
  ehsize = omega arith;
  phentsize = omega arith;
  phnum = omega arith;
  shentsize = omega arith;
  shnum = omega arith;
  shstrndx = omega arith;
}

-- The program header of a loaded segment at 0x400000.
abbrev segment : List ℕ
segment =
    to_le_bytes 4 pt_load
    ++ to_le_bytes 4 5
    ++ to_le_bytes 8 64
    ++ to_le_bytes 8 0x400000
    ++ to_le_bytes 8 0
    ++ to_le_bytes 8 0x1000
    ++ to_le_bytes 8 0x1000
    ++ to_le_bytes 8 0

abbrev file : List ℕ
file = header_bytes header ++ segment

parse_ehdr-header_bytes_example : parse_ehdr (header_bytes header ++ segment) ≡ ok header
parse_ehdr-header_bytes_example = parse_ehdr-header_bytes header segment header-IsHeader

accepted : validate_hdr header ≡ ok tt
unfolding validate_hdr
accepted = refl

least : min_load_vaddr file header ≡ ok 0x400000
unfolding min_load_vaddr
least = refl

min_load_vaddr_lem_example :
    ((i : ℕ) (ph : Elf64Phdr)
      → i < 1
      → phdr_at file header i ≡ ok ph
      → ph.p_type ≡ pt_load
      → 0x400000 ≤ ph.p_vaddr)
    × ((i : ℕ) × (ph : Elf64Phdr) × (i < 1)
        × (phdr_at file header i ≡ ok ph)
        × (ph.p_type ≡ pt_load)
        × (ph.p_vaddr ≡ 0x400000))
min_load_vaddr_lem_example = min_load_vaddr_lem file header 0x400000 least

parse_dynamic-some_example : parse_dynamic file header 0 ≢ none
parse_dynamic-some_example = parse_dynamic-some file header 0

-- "#! /sh -x" and a second line.

abbrev relative : ℕ → ℕ → Elf64Rela
relative offset addend = record { r_offset = offset; r_info = 8; r_addend = addend }

abbrev zeros : Words
zeros = λ a. 0

-- The second entry is for the address of the first one too; its addend is -16.
apply_rela_table_lem_example :
    ((apply_rela_table 0x400000
        (λ m s. none)
        put
        false
        ((relative 8 1 ∷ []) ++ (relative 8 0xffff_ffff_ffff_fff0 ∷ relative 16 3 ∷ []))
        zeros).0
      ≡ none)
    × (Untouched 8 (relative 16 3 ∷ [])
        → (apply_rela_table 0x400000
              (λ m s. none)
              put
              false
              ((relative 8 1 ∷ []) ++ (relative 8 0xffff_ffff_ffff_fff0 ∷ relative 16 3 ∷ []))
              zeros).1
            8
          ≡ (0x400000 + 0xffff_ffff_ffff_fff0) % 2 ^ 64)
    × (Untouched 24 ((relative 8 1 ∷ []) ++ (relative 8 0xffff_ffff_ffff_fff0 ∷ relative 16 3 ∷ []))
        → (apply_rela_table 0x400000
              (λ m s. none)
              put
              false
              ((relative 8 1 ∷ []) ++ (relative 8 0xffff_ffff_ffff_fff0 ∷ relative 16 3 ∷ []))
              zeros).1
            24
          ≡ 0)
apply_rela_table_lem_example =
    apply_rela_table_lem 0x400000 (λ m s. none) false (relative 8 1 ∷ [])
      (relative 8 0xffff_ffff_ffff_fff0) (relative 16 3 ∷ []) zeros 24 (refl, tt) refl (refl, tt)
