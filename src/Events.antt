-- ===== src/Events.antt =====
-- src/events/flow_key.hpp, flow_state.hpp and flow_event.hpp: the values that pass between the
-- components. A `std::array<uint8_t, 16>` is a list of bytes.
pub mod EventQueue
pub mod FlowKeyHash
mod Tests
use packetpipe.Common.{ℕ, ◌≡◌, ◌↔◌, Bool, true, false, ◌&&◌, List, [], ◌∷◌, arith, ◌==◌}
use packetpipe.Common.Int.{ℤ}

pub record FlowKey : Type 0 where
  pub src_ip : List ℕ
  pub dst_ip : List ℕ
  pub src_port : ℕ
  pub dst_port : ℕ
  pub protocol : ℕ

unfoldable pub bytes_eq : List ℕ → List ℕ → Bool
bytes_eq [] [] = true
bytes_eq [] (y ∷ ys) = false
bytes_eq (x ∷ xs) [] = false
bytes_eq (x ∷ xs) (y ∷ ys) = x == y && bytes_eq xs ys

-- The defaulted `operator==`: member by member.
unfoldable pub key_eq : FlowKey → FlowKey → Bool
unfolding bytes_eq
key_eq a b =
    bytes_eq a.src_ip b.src_ip
    && bytes_eq a.dst_ip b.dst_ip
    && a.src_port == b.src_port
    && a.dst_port == b.dst_port
    && a.protocol == b.protocol

pub bytes_eq_iff : (xs ys : List ℕ) → (bytes_eq xs ys ≡ true) ↔ (xs ≡ ys)
unfolding bytes_eq
bytes_eq_iff [] [] = ground arith
bytes_eq_iff [] (y ∷ ys) = ground arith
bytes_eq_iff (x ∷ xs) [] = ground arith
bytes_eq_iff (x ∷ xs) (y ∷ ys) = ground (arith, bytes_eq_iff xs ys)

pub key_eq_iff : (a b : FlowKey) → (key_eq a b ≡ true) ↔ (a ≡ b)
unfolding key_eq
key_eq_iff a b = ground (arith, bytes_eq_iff a.src_ip b.src_ip, bytes_eq_iff a.dst_ip b.dst_ip)

pub record FlowState : Type 0 where
  pub key : FlowKey
  pub start_us : ℤ
  pub last_seen_us : ℤ
  pub packet_count : ℕ
  pub byte_count : ℕ

pub data FlowEventType : Type 0 where
  start end stats : FlowEventType

pub data ExpireReason : Type 0 where
  idle_timeout tcp_teardown : ExpireReason

pub record FlowEvent : Type 0 where
  pub type : FlowEventType
  pub state : FlowState
  pub event_timestamp_us : ℤ
  pub reason : ExpireReason
