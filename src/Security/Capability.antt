-- ===== src/Security/Capability.antt =====
-- kernel/src/security/capability.rs: capability sets as 64-bit masks, and credentials.
pub mod Fork
pub mod Tests
use theory_os.Base.{ℕ, ◌^◌, Bool, true, false, ◌||◌, ◌==◌, if◌then◌else◌}
use Prim.Native.Nat.{bit_and, bit_or}

abbrev pub CapSet : Type 0
CapSet = ℕ

abbrev pub cap_chown : CapSet
cap_chown = 2 ^ 0

abbrev pub cap_dac_override : CapSet
cap_dac_override = 2 ^ 1

abbrev pub cap_kill : CapSet
cap_kill = 2 ^ 5

abbrev pub cap_net_bind_service : CapSet
cap_net_bind_service = 2 ^ 10

abbrev pub cap_sys_ptrace : CapSet
cap_sys_ptrace = 2 ^ 19

abbrev pub cap_sys_admin : CapSet
cap_sys_admin = 2 ^ 21

abbrev pub cap_sys_boot : CapSet
cap_sys_boot = 2 ^ 22

-- `contains` of the flags: every bit of `cap` is set.
abbrev pub contains : CapSet → CapSet → Bool
contains s cap = bit_and s cap == cap

pub record Credentials : Type 0 where
  pub uid : ℕ
  pub gid : ℕ
  pub euid : ℕ
  pub egid : ℕ
  pub permitted : CapSet
  pub effective : CapSet
  pub inheritable : CapSet

abbrev all : CapSet
all =
    bit_or
      (bit_or
        (bit_or (bit_or (bit_or (bit_or cap_chown cap_dac_override) cap_kill) cap_net_bind_service)
          cap_sys_admin)
        cap_sys_ptrace)
      cap_sys_boot

abbrev pub root : Credentials
root = record {
  uid = 0;
  gid = 0;
  euid = 0;
  egid = 0;
  permitted = all;
  effective = all;
  inheritable = all;
}

abbrev pub user : Credentials
user = record {
  uid = 1000;
  gid = 1000;
  euid = 1000;
  egid = 1000;
  permitted = 0;
  effective = 0;
  inheritable = 0;
}

abbrev pub is_privileged : Credentials → Bool
is_privileged c = c.euid == 0

unfoldable pub capable : Credentials → CapSet → Bool
capable c cap = if c.euid == 0 then true else contains c.effective cap

unfoldable pub fork : Credentials → Credentials
fork c = record c { effective = bit_and c.inheritable c.permitted }

unfoldable pub can_signal : Credentials → Credentials → Bool
unfolding capable
can_signal c target =
    if capable c cap_kill
    then true
    else (c.euid == target.euid)
      || (c.euid == target.uid)
      || (c.uid == target.euid)
      || (c.uid == target.uid)
