-- ===== src/Gps/Node/Owned.antt =====
-- The node's device over any number of callbacks.
use mathlib.Core.Bool.{true≢false}
use billee_software.Prelude.{
  ap, inl, inr, ℕ, ◌≡◌, refl, sym, ◌∙◌, subst, Bool, true, false, Option, none, some, List, [], ◌∷◌,
  ◌==◌, if◌then◌else◌,
}
use billee_software.Prelude.Int.{ℤ}
use billee_software.Double.{Double}
use billee_software.Gps.Device.{open_device}
use billee_software.Gps.Device.Laws.{
  IsOwned, open_device-IsOwned, destroy_lem, name_allocated-open_device,
}
use billee_software.Gps.Node.{
  Gps, Answers, read_msg, fresh_gps, destroy_gps, store_pos, store_cov, store, poll_msgs,
  may_publish, sent, publish_pair, must_forget, forget_late, timer_callback, run, pos_id, cov_id,
}

module _ {D : Type 0} ⦃d : Double D⦄ where
  device-if :
      (b : Bool) (s t u : Gps D)
      → t.device ≡ s.device
      → u.device ≡ s.device
      → (if b then t else u).device ≡ s.device
  device-if true s t u ht hu = ht
  device-if false s t u ht hu = hu

  device-store :
      (time : ℕ) (buffer : List ℕ) (id : Option ℕ) (s : Gps D)
      → (store time buffer id s).device ≡ s.device
  unfolding store
  device-store time buffer none s = refl
  device-store time buffer (some id) s =
      device-if (id == pos_id) s (store_pos time buffer s) _ refl
        (device-if (id == cov_id) s (store_cov time buffer s) s refl refl)

  device-publish_pair : (s : Gps D) → (publish_pair s).device ≡ s.device
  unfolding publish_pair
  device-publish_pair s = device-if (may_publish s) s (sent s) s refl refl

  module _ (seconds : ℤ → D) (tol_sec : ℤ) where
    device-forget_late :
        (now : ℕ) (s : Gps D) → (forget_late seconds tol_sec now s).device ≡ s.device
    unfolding forget_late
    device-forget_late now s = device-if (must_forget seconds tol_sec now s) s _ s refl refl

    device-timer_callback :
        (a : Answers) (s : Gps D)
        → (timer_callback seconds tol_sec a s).device
          ≡ (open_device a.opened a.configured s.device).1
    unfolding timer_callback poll_msgs read_msg
    device-timer_callback a s =
        device-forget_late a.now (publish_pair (poll_msgs a s))
        ∙ device-publish_pair (poll_msgs a s)
        ∙ device-store a.stored_at (read_msg a s.device).2 (read_msg a s.device).0
            (record s { device = (read_msg a s.device).1 })

    device-IsOwned :
        (answers : List Answers) (s : Gps D)
        → IsOwned s.device
        → IsOwned (run seconds tol_sec answers s).device
    unfolding run
    device-IsOwned [] s h = h
    device-IsOwned (a ∷ answers) s h = device-IsOwned answers (timer_callback seconds tol_sec a s) (
        subst IsOwned (sym (device-timer_callback a s))
          (open_device-IsOwned a.opened a.configured s.device h))

    name_allocated-run :
        (answers : List Answers) (s : Gps D)
        → (run seconds tol_sec answers s).device.name_allocated ≡ s.device.name_allocated
    unfolding run
    name_allocated-run [] s = refl
    name_allocated-run (a ∷ answers) s =
        name_allocated-run answers (timer_callback seconds tol_sec a s)
        ∙ ap (λ v. v.name_allocated) (device-timer_callback a s)
        ∙ name_allocated-open_device a.opened a.configured s.device

    -- However many callbacks a new node runs, and whatever `open` and `tcsetattr` answer, the
    -- descriptors that its device has been given are those that it has closed, in order, and then the
    -- one that it holds. The node's destructor has no defined result: it deletes a name that is a
    -- literal before it comes to closing the descriptor.
    pub run-IsOwned :
        (answers : List Answers)
        → IsOwned (run seconds tol_sec answers fresh_gps).device
          × (destroy_gps (run seconds tol_sec answers fresh_gps) ≡ none)
    unfolding destroy_gps
    run-IsOwned answers =
        let t = run seconds tol_sec answers fresh_gps in
        let owned = device-IsOwned answers fresh_gps refl in
        let unnamed = name_allocated-run answers fresh_gps in
        (
          owned,
          elim (destroy_lem t.device owned) [
            | inl (e, gone) ↦ rw (destroy_gps, gone) refl
            | inr (u, e, k, n, named) ↦ absurd (true≢false (sym named ∙ unnamed))
          ],
        )
