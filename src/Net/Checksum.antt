-- ===== src/Net/Checksum.antt =====
-- kernel/src/net/ipv4.rs: the Internet checksum, which IPv4, UDP, TCP and ICMP share.
pub mod Laws
use theory_os.Base.{ℕ, zero, suc, ◌+◌, ◌-◌, ◌*◌, ◌/◌, ◌%◌, ◌^◌, List, [], ◌∷◌, ◌==◌, if◌then◌else◌}
use theory_os.Base.Bytes.{u16_from_be_bytes}

-- The words of the data, an odd last byte as the high byte of a word, added to a `u32`.
unfoldable pub sum_words : List ℕ → ℕ → ℕ
sum_words [] sum = sum
sum_words (a ∷ []) sum = (sum + a * 2 ^ 8) % 2 ^ 32
sum_words (a ∷ b ∷ rest) sum = sum_words rest ((sum + u16_from_be_bytes a b) % 2 ^ 32)

-- The second loop, on fuel: the carries are added to the lower half.
unfoldable pub fold_carries : ℕ → ℕ → ℕ
fold_carries zero sum = sum
fold_carries (suc fuel) sum =
    let rest = fold_carries fuel (sum % 2 ^ 16 + sum / 2 ^ 16) in
    if sum / 2 ^ 16 == 0 then sum else rest

-- Two rounds clear the carries of every `u32`.
unfoldable pub checksum : List ℕ → ℕ
unfolding sum_words fold_carries
checksum bytes = (2 ^ 32 - 1 - fold_carries 2 (sum_words bytes 0)) % 2 ^ 16
