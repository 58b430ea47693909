-- ===== src/Mm/Elf.antt =====
-- kernel/src/mm/elf/parse.rs: reading the headers of ELF files. The sums of 64 bits wrap around, as
-- in a build without overflow checks; a read beyond the end of the file, which such a sum can lead
-- to, is told apart.
pub mod Header
pub mod Shebang
pub mod Relocate
pub mod Segments
pub mod Found
mod Tests
use theory_os.Base.{
  ℕ, zero, suc, ◌+◌, ◌-◌, ◌*◌, ◌/◌, ◌%◌, ◌^◌, Bool, true, false, not, ◌&&◌, ◌||◌, Option, none,
  some, List, [], ◌∷◌, ltb, leb, ◌==◌, if◌then◌else◌, length, get_or, take, drop, min,
}
use theory_os.Base.Bytes.{from_le_bytes, slice}

abbrev pub elf_magic : List ℕ
elf_magic = 0x7f ∷ 0x45 ∷ 0x4c ∷ 0x46 ∷ []

abbrev pub et_exec : ℕ
et_exec = 2

abbrev pub et_dyn : ℕ
et_dyn = 3

abbrev pub em_x86_64 : ℕ
em_x86_64 = 62

abbrev pub pt_load : ℕ
pt_load = 1

abbrev pub pt_dynamic : ℕ
pt_dynamic = 2

abbrev pub pt_interp : ℕ
pt_interp = 3

abbrev pub pt_phdr : ℕ
pt_phdr = 6

abbrev pub u64_max : ℕ
u64_max = 0xffff_ffff_ffff_ffff

abbrev pub wrap : ℕ → ℕ
wrap n = n % 2 ^ 64

pub record Elf64Ehdr : Type 0 where
  pub e_ident : List ℕ
  pub e_type : ℕ
  pub e_machine : ℕ
  pub e_version : ℕ
  pub e_entry : ℕ
  pub e_phoff : ℕ
  pub e_shoff : ℕ
  pub e_flags : ℕ
  pub e_ehsize : ℕ
  pub e_phentsize : ℕ
  pub e_phnum : ℕ
  pub e_shentsize : ℕ
  pub e_shnum : ℕ
  pub e_shstrndx : ℕ

pub record Elf64Phdr : Type 0 where
  pub p_type : ℕ
  pub p_flags : ℕ
  pub p_offset : ℕ
  pub p_vaddr : ℕ
  pub p_paddr : ℕ
  pub p_filesz : ℕ
  pub p_memsz : ℕ
  pub p_align : ℕ

pub data ParseError : Type 0 where
  invalid : ParseError
  not_elf : ParseError
  bad_machine : ParseError
  bad_type : ParseError

-- `outside` is a read beyond the end of the file, or a slice that panics.
pub data Parsed (A : Type 0) : Type 0 where
  ok : A → Parsed A
  err : ParseError → Parsed A
  outside : Parsed A

infixl 5 ◌>>=◌
abbrev pub ◌>>=◌ : {A B : Type 0} → Parsed A → (A → Parsed B) → Parsed B
ok a >>= f = f a
err e >>= f = err e
outside >>= f = outside

-- The little-endian word of `n` bytes at an offset.
abbrev pub word_at : List ℕ → ℕ → ℕ → ℕ
word_at bytes off n = from_le_bytes (slice bytes off (off + n))

-- `read_unaligned` of the headers, at their offsets under `repr(C)`.
abbrev pub read_ehdr : List ℕ → Elf64Ehdr
read_ehdr bytes = record {
  e_ident = slice bytes 0 16;
  e_type = word_at bytes 16 2;
  e_machine = word_at bytes 18 2;
  e_version = word_at bytes 20 4;
  e_entry = word_at bytes 24 8;
  e_phoff = word_at bytes 32 8;
  e_shoff = word_at bytes 40 8;
  e_flags = word_at bytes 48 4;
  e_ehsize = word_at bytes 52 2;
  e_phentsize = word_at bytes 54 2;
  e_phnum = word_at bytes 56 2;
  e_shentsize = word_at bytes 58 2;
  e_shnum = word_at bytes 60 2;
  e_shstrndx = word_at bytes 62 2;
}

abbrev pub read_phdr : List ℕ → Elf64Phdr
read_phdr bytes = record {
  p_type = word_at bytes 0 4;
  p_flags = word_at bytes 4 4;
  p_offset = word_at bytes 8 8;
  p_vaddr = word_at bytes 16 8;
  p_paddr = word_at bytes 24 8;
  p_filesz = word_at bytes 32 8;
  p_memsz = word_at bytes 40 8;
  p_align = word_at bytes 48 8;
}

unfoldable pub parse_ehdr : List ℕ → Parsed Elf64Ehdr
parse_ehdr bytes = if ltb (length bytes) 64 then err invalid else ok (read_ehdr bytes)

abbrev pub same_magic : List ℕ → Bool
same_magic ident =
    (get_or ident 0 0 == 0x7f)
    && (get_or ident 1 0 == 0x45)
    && (get_or ident 2 0 == 0x4c)
    && (get_or ident 3 0 == 0x46)

unfoldable pub validate_hdr : Elf64Ehdr → Parsed Unit
validate_hdr hdr =
    if not (same_magic hdr.e_ident) || not (get_or hdr.e_ident 4 0 == 2)
    then err not_elf
    else if not (get_or hdr.e_ident 5 0 == 1)
    then err not_elf
    else if not (hdr.e_machine == em_x86_64)
    then err bad_machine
    else if not (hdr.e_type == et_exec) && not (hdr.e_type == et_dyn)
    then err bad_type
    else ok tt

abbrev pub phdr_offset : Elf64Ehdr → ℕ → ℕ
phdr_offset hdr index = wrap (hdr.e_phoff + index * hdr.e_phentsize)

unfoldable pub phdr_at : List ℕ → Elf64Ehdr → ℕ → Parsed Elf64Phdr
phdr_at bytes hdr index =
    if ltb (length bytes) (wrap (phdr_offset hdr index + 56))
    then err invalid
    else if ltb (length bytes) (phdr_offset hdr index + 56)
    then outside
    else ok (read_phdr (drop (phdr_offset hdr index) bytes))

unfoldable pub is_elf : List ℕ → Bool
is_elf bytes = leb 4 (length bytes) && same_magic bytes
