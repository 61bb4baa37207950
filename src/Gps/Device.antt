-- ===== src/Gps/Device.antt =====
-- `SerialDevice`, ros2_ws/src/comms/include/comms/SerialDevice.hpp. What the system calls answer is an
-- argument; the settings of the terminal are left out but for whether they are taken.
pub mod Laws
use billee_software.Prelude.{
  ℕ, ◌-◌, ◌^◌, Bool, true, false, Option, none, some, List, [], ◌∷◌, ◌++◌, length, drop, take,
  if◌then◌else◌,
}

-- Whether `deviceName` is from `new`; `fd`, with `none` for -1; and the descriptors that the device
-- has opened and closed, in order.
pub record SerialDevice : Type 0 where
  pub name_allocated : Bool
  pub fd : Option ℕ
  pub opened : List ℕ
  pub closed : List ℕ

-- A new device: `fd(-1)`.
abbrev pub fresh : Bool → SerialDevice
fresh allocated = record { name_allocated = allocated; fd = none; opened = []; closed = [] }

-- `if (fd != -1) close(fd)`.
unfoldable pub close_old : SerialDevice → SerialDevice
close_old s = elim s.fd [ none ↦ s | some fd ↦ record s { closed = s.closed ++ fd ∷ [] } ]

-- With the answers of `open` and `tcsetattr`.
unfoldable pub open_device : Option ℕ → Bool → SerialDevice → Bool × SerialDevice
unfolding close_old
open_device answer configured s =
    let t = close_old s in
    elim answer [
      | none ↦ (false, record t { fd = none })
      | some fd ↦ (configured, record t { fd = some fd; opened = t.opened ++ fd ∷ [] })
    ]

-- The destructor. `delete deviceName` comes first; for a name that `new` has not allocated it is
-- undefined behaviour, and nothing can be said of what follows: `none`.
unfoldable pub destroy : SerialDevice → Option SerialDevice
unfolding close_old
destroy s = if s.name_allocated then some (record (close_old s) { fd = none }) else none

-- The count as a `size_t`, and the buffer after `read`, which answers -1 if there is no descriptor.
unfoldable pub read_msg : Option (List ℕ) → SerialDevice → List ℕ → ℕ × List ℕ
read_msg answer s buffer = elim s.fd [
  | none ↦ (2 ^ 64 - 1, buffer)
  | some _ ↦ elim answer [
    | none ↦ (2 ^ 64 - 1, buffer)
    | some bytes ↦
        let got = take (length buffer) bytes in (length got, got ++ drop (length got) buffer)
  ]
]
