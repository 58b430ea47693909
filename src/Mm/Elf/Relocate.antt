-- ===== src/Mm/Elf/Relocate.antt =====
-- kernel/src/mm/elf/relocate.rs: the entries of a relocation table. An addend is the word of 64 bits
-- that stands for it; `write` is what the loader does with an address and a value.
use theory_os.Base.{
  ℕ, ◌+◌, ◌/◌, ◌%◌, ◌^◌, ◌≡◌, ◌≢◌, refl, sym, ap, ◌∙◌, arith, Bool, ◌&&◌, ◌||◌, Option, none, some,
  List, [], ◌∷◌, ◌++◌, ◌==◌, if◌then◌else◌, All, All-append,
}

abbrev pub r_x86_64_none : ℕ
r_x86_64_none = 0

abbrev pub r_x86_64_64 : ℕ
r_x86_64_64 = 1

abbrev pub r_x86_64_glob_dat : ℕ
r_x86_64_glob_dat = 6

abbrev pub r_x86_64_jump_slot : ℕ
r_x86_64_jump_slot = 7

abbrev pub r_x86_64_relative : ℕ
r_x86_64_relative = 8

abbrev pub r_x86_64_irelative : ℕ
r_x86_64_irelative = 37

pub record Elf64Rela : Type 0 where
  pub r_offset : ℕ
  pub r_info : ℕ
  pub r_addend : ℕ

pub data RelocError : Type 0 where
  unknown_type : ℕ → RelocError
  bad_offset : RelocError

pub data Reloc (S : Type 0) : Type 0 where
  ok : S → Reloc S
  err : RelocError → Reloc S

abbrev pub wrapping_add : ℕ → ℕ → ℕ
wrapping_add a b = (a + b) % 2 ^ 64

abbrev pub unwrap_or : Option ℕ → ℕ → ℕ
unwrap_or none other = other
unwrap_or (some v) other = v

abbrev pub reloc_type : Elf64Rela → ℕ
reloc_type rela = rela.r_info % 2 ^ 32

module _ {S : Type 0} (load_base : ℕ) (resolve : S → ℕ → Option ℕ) (write : ℕ → ℕ → S → Reloc S)
    (allow_irelative : Bool) where
  -- One entry, with the memory before it and after it; on an error the memory is what it was.
  unfoldable pub apply_rela_entry : Elf64Rela → S → Reloc S
  apply_rela_entry rela mem =
      if reloc_type rela == r_x86_64_none
      then ok mem
      else if reloc_type rela == r_x86_64_relative
      then write rela.r_offset (wrapping_add load_base rela.r_addend) mem
      else if (reloc_type rela == r_x86_64_64)
          || (reloc_type rela == r_x86_64_glob_dat)
          || (reloc_type rela == r_x86_64_jump_slot)
      then write rela.r_offset
          (wrapping_add (unwrap_or (resolve mem (rela.r_info / 2 ^ 32)) 0) rela.r_addend) mem
      else if (reloc_type rela == r_x86_64_irelative) && allow_irelative
      then write rela.r_offset
          (unwrap_or (resolve mem (wrapping_add load_base rela.r_addend))
            (wrapping_add load_base rela.r_addend))
          mem
      else err (unknown_type (reloc_type rela))

  -- The answer, and the memory that the entries up to an error have left.
  unfoldable pub apply_rela_table : List Elf64Rela → S → Option RelocError × S
  unfolding apply_rela_entry
  apply_rela_table [] mem = (none, mem)
  apply_rela_table (rela ∷ entries) mem = elim (apply_rela_entry rela mem) [
    | ok mem' ↦ apply_rela_table entries mem'
    | err e ↦ (some e, mem)
  ]

unfoldable pub rela_count : ℕ → ℕ → ℕ
rela_count relasz relaent = if relaent == 0 then 0 else relasz / relaent

-- Memory by words, where every write succeeds.
abbrev pub Words : Type 0
Words = ℕ → ℕ

abbrev pub put : ℕ → ℕ → Words → Reloc Words
put addr value mem = ok (λ a. if a == addr then value else mem a)

-- A table of relative entries.
abbrev pub AllRelative : List Elf64Rela → Type 0
AllRelative = All (λ rela. reloc_type rela ≡ r_x86_64_relative)

-- No entry is for the address.
abbrev pub Untouched : ℕ → List Elf64Rela → Type 0
Untouched addr = All (λ rela. rela.r_offset ≢ addr)

abbrev relocated : ℕ → Elf64Rela → Words → Words
relocated load_base rela mem =
    λ a. if a == rela.r_offset then wrapping_add load_base rela.r_addend else mem a

module _ (load_base : ℕ) (resolve : Words → ℕ → Option ℕ) (allow : Bool) where
  apply_one :
      (rela : Elf64Rela) (mem : Words)
      → reloc_type rela ≡ r_x86_64_relative
      → apply_rela_entry load_base resolve put allow rela mem ≡ ok (relocated load_base rela mem)
  unfolding apply_rela_entry
  apply_one rela mem r = rw (r, apply_rela_entry) refl

  apply_first :
      (rela : Elf64Rela) (entries : List Elf64Rela) (mem : Words)
      → reloc_type rela ≡ r_x86_64_relative
      → apply_rela_table load_base resolve put allow (rela ∷ entries) mem
        ≡ apply_rela_table load_base resolve put allow entries (relocated load_base rela mem)
  unfolding apply_rela_table
  apply_first rela entries mem r = rw (apply_one rela mem r, apply_rela_table) refl

  apply_rela_table-none :
      (entries : List Elf64Rela) (mem : Words)
      → AllRelative entries
      → (apply_rela_table load_base resolve put allow entries mem).0 ≡ none
  unfolding apply_rela_table
  apply_rela_table-none [] mem all = refl
  apply_rela_table-none (rela ∷ entries) mem (r, all) =
      ap (λ x. x.0) (apply_first rela entries mem r)
      ∙ apply_rela_table-none entries (relocated load_base rela mem) all

  untouched_lem :
      (addr : ℕ) (entries : List Elf64Rela) (mem : Words)
      → AllRelative entries
      → Untouched addr entries
      → (apply_rela_table load_base resolve put allow entries mem).1 addr ≡ mem addr
  unfolding apply_rela_table
  untouched_lem addr [] mem all others = refl
  untouched_lem addr (rela ∷ entries) mem (r, all) (other, others) =
      ap (λ x. x.1 addr) (apply_first rela entries mem r)
      ∙ untouched_lem addr entries (relocated load_base rela mem) all others
      ∙ ground (arith, other)

  apply_rela_table-append :
      (before behind : List Elf64Rela) (mem : Words)
      → AllRelative before
      → apply_rela_table load_base resolve put allow (before ++ behind) mem
        ≡ apply_rela_table load_base resolve put allow behind
            (apply_rela_table load_base resolve put allow before mem).1
  unfolding apply_rela_table
  apply_rela_table-append [] behind mem all = refl
  apply_rela_table-append (rela ∷ before) behind mem (r, all) =
      apply_first rela (before ++ behind) mem r
      ∙ apply_rela_table-append before behind (relocated load_base rela mem) all
      ∙ ap (λ x. apply_rela_table load_base resolve put allow behind x.1)
          (sym (apply_first rela before mem r))

-- A table of relative entries is applied without an error; a word of memory is then the base plus
-- the addend, modulo 2^64, of the last entry for its address, and what it was where there is none.
pub apply_rela_table_lem :
    (load_base : ℕ) (resolve : Words → ℕ → Option ℕ) (allow : Bool) (before : List Elf64Rela)
    (rela : Elf64Rela) (behind : List Elf64Rela) (mem : Words) (addr : ℕ)
    → AllRelative before
    → reloc_type rela ≡ r_x86_64_relative
    → AllRelative behind
    → ((apply_rela_table load_base resolve put allow (before ++ (rela ∷ behind)) mem).0 ≡ none)
      × (Untouched rela.r_offset behind
          → (apply_rela_table load_base resolve put allow (before ++ (rela ∷ behind)) mem).1
              rela.r_offset
            ≡ (load_base + rela.r_addend) % 2 ^ 64)
      × (Untouched addr (before ++ (rela ∷ behind))
          → (apply_rela_table load_base resolve put allow (before ++ (rela ∷ behind)) mem).1 addr
            ≡ mem addr)
apply_rela_table_lem load_base resolve allow before rela behind mem addr rb r rr =
    let all : AllRelative (before ++ (rela ∷ behind)) =
      All-append (λ x. reloc_type x ≡ r_x86_64_relative) before (rela ∷ behind) rb (r, rr) in
    (
      apply_rela_table-none load_base resolve allow (before ++ (rela ∷ behind)) mem all,
      (λ others.
          ap (λ x. x.1 rela.r_offset)
            (apply_rela_table-append load_base resolve allow before (rela ∷ behind) mem rb
              ∙ apply_first load_base resolve allow rela behind at r)
          ∙ untouched_lem load_base resolve allow rela.r_offset behind (relocated load_base rela at)
              rr others
          ∙ ground arith),
      λ others.
          untouched_lem load_base resolve allow addr (before ++ (rela ∷ behind)) mem all others,
    )
  where
    at : Words
    at = (apply_rela_table load_base resolve put allow before mem).1
