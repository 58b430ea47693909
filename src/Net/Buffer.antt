-- ===== src/Net/Buffer.antt =====
-- kernel/src/net/buffer.rs: the packet buffer.
pub mod Laws
use theory_os.Base.{
  ℕ, ◌+◌, ◌-◌, Bool, true, false, List, [], ◌∷◌, ◌++◌, ltb, leb, if◌then◌else◌, length, set, take,
  drop, replicate,
}

abbrev pub max_packet : ℕ
max_packet = 2048

-- `[u8; MAX_PACKET]` and the number of bytes in use.
pub record PacketBuf : Type 0 where
  pub storage : List ℕ
  pub len : ℕ

unfoldable pub new : PacketBuf
new = record { storage = replicate max_packet 0; len = 0 }

unfoldable pub clear : PacketBuf → PacketBuf
clear p = record p { len = 0 }

-- `data`.
abbrev pub bytes : PacketBuf → List ℕ
bytes p = take p.len p.storage

unfoldable pub reserve : ℕ → PacketBuf → Bool × PacketBuf
reserve size p = if ltb max_packet size then (false, p) else (true, record p { len = size })

unfoldable pub extend_from_slice : List ℕ → PacketBuf → Bool × PacketBuf
extend_from_slice more p = if ltb max_packet (p.len + length more) then (false, p) else (
  true,
  record {
    storage = take p.len p.storage ++ (more ++ drop (p.len + length more) p.storage);
    len = p.len + length more;
  },
)

unfoldable pub push : ℕ → PacketBuf → Bool × PacketBuf
push byte p =
    if leb max_packet p.len
    then (false, p)
    else (true, record { storage = set p.storage p.len byte; len = p.len + 1 })

-- `copy_within(n..len, 0)` leaves the bytes behind the copy as they are.
unfoldable pub trim_front : ℕ → PacketBuf → PacketBuf
trim_front n p = if leb p.len n then record p { len = 0 } else record {
  storage = drop n (take p.len p.storage) ++ drop (p.len - n) p.storage;
  len = p.len - n;
}
