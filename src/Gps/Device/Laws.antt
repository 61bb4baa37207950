-- ===== src/Gps/Device/Laws.antt =====
-- The descriptors that a device opens and closes.
use mathlib.Core.List.{append-nil}
use billee_software.Prelude.{
  ℕ, ◌≡◌, refl, sym, ap, ◌∙◌, ◌⊎◌, inl, inr, Bool, true, false, Bool-cases, Option, none, some,
  List, [], ◌∷◌, ◌++◌,
}
use billee_software.Gps.Device.{SerialDevice, close_old, open_device, destroy}

-- What the device holds.
abbrev pub held : Option ℕ → List ℕ
held none = []
held (some fd) = fd ∷ []

-- Each descriptor that was opened has been closed once, in order, or is the one held.
abbrev pub IsOwned : SerialDevice → Type 0
IsOwned s = s.opened ≡ s.closed ++ held s.fd

close_old_lem : (s : SerialDevice) → IsOwned s → (close_old s).opened ≡ (close_old s).closed
unfolding close_old
close_old_lem s h = by_fd s.fd refl
  where
    by_fd : (fd : Option ℕ) → s.fd ≡ fd → (close_old s).opened ≡ (close_old s).closed
    by_fd none e = rw (close_old, e) (h ∙ ap (λ f. s.closed ++ held f) e ∙ append-nil s.closed)
    by_fd (some fd) e = rw (close_old, e) (h ∙ ap (λ f. s.closed ++ held f) e)

pub open_device-IsOwned :
    (answer : Option ℕ) (configured : Bool) (s : SerialDevice)
    → IsOwned s
    → IsOwned (open_device answer configured s).1
unfolding open_device
open_device-IsOwned none configured s h = close_old_lem s h ∙ sym (append-nil _)
open_device-IsOwned (some fd) configured s h = ap (λ l. l ++ fd ∷ []) (close_old_lem s h)

name_allocated-close_old : (s : SerialDevice) → (close_old s).name_allocated ≡ s.name_allocated
unfolding close_old
name_allocated-close_old s = by_fd s.fd refl
  where
    by_fd : (fd : Option ℕ) → s.fd ≡ fd → (close_old s).name_allocated ≡ s.name_allocated
    by_fd none e = rw (close_old, e) refl
    by_fd (some fd) e = rw (close_old, e) refl

-- The name is never replaced.
pub name_allocated-open_device :
    (answer : Option ℕ) (configured : Bool) (s : SerialDevice)
    → (open_device answer configured s).1.name_allocated ≡ s.name_allocated
unfolding open_device
name_allocated-open_device none configured s = name_allocated-close_old s
name_allocated-open_device (some fd) configured s = name_allocated-close_old s

-- The destructor of a device closes what it holds if its name can be deleted, and has no defined
-- result otherwise.
pub destroy_lem :
    (s : SerialDevice)
    → IsOwned s
    → ((s.name_allocated ≡ false) × (destroy s ≡ none))
      ⊎ ((t : SerialDevice) × (destroy s ≡ some t)
          × (t.opened ≡ t.closed)
          × (t.fd ≡ none)
          × (s.name_allocated ≡ true))
unfolding destroy
destroy_lem s h = elim (Bool-cases s.name_allocated) [
  | inl e ↦ inr (record (close_old s) { fd = none }, rw e refl, close_old_lem s h, refl, e)
  | inr e ↦ inl (e, rw e refl)
]
