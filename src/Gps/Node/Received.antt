-- ===== src/Gps/Node/Received.antt =====
-- What comes in, and steps that publish pairs of it.
use mathlib.Core.List.Sublist
use mathlib.Core.List.{append-nil, append_assoc, map-append, Sublist, nil-sublist}
use billee_software.Prelude.{
  ℕ, ◌≡◌, refl, sym, ap, ◌∙◌, subst, Bool, false, Option, none, some, List, [], ◌∷◌, ◌++◌, ◌==◌,
  if◌then◌else◌, All, All-append, map, take, drop,
}
use billee_software.Double.{Double}
use billee_software.Gps.Device.{SerialDevice, fresh, open_device, read_msg as device_read}
use billee_software.Gps.Payload.{PosPayload, CovPayload, pos_of_bytes, cov_of_bytes}
use billee_software.Gps.Node.{
  Gps, Answers, pos_id, cov_id, pos_size, cov_size, header_bytes, read_msg, message_id,
  construct_gps_msg,
}

-- The identifier and the buffer that the answers give.
unfoldable pub received : Answers → Option ℕ × List ℕ
received a = let (id, _, buffer) = read_msg a (fresh false) in (id, buffer)

fd-open_device :
    (answer : Option ℕ) (configured : Bool) (s : SerialDevice)
    → (open_device answer configured s).1.fd ≡ answer
unfolding open_device
fd-open_device none configured s = refl
fd-open_device (some fd) configured s = refl

-- The device is opened anew for each message, so its state does not matter.
pub read_msg_lem :
    (a : Answers) (s : SerialDevice)
    → read_msg a s ≡ ((received a).0, (open_device a.opened a.configured s).1, (received a).1)
unfolding received read_msg device_read
read_msg_lem a s =
    ap
      (λ (fd : Option ℕ).
        let (count, buffer) =
          device_read a.bytes (record { name_allocated = false; fd = fd; opened = []; closed = [] })
            a.buffer in
        (
          if count == 0 then none else message_id buffer,
          (open_device a.opened a.configured s).1,
          buffer,
        ))
      (fd-open_device a.opened a.configured s
        ∙ sym (fd-open_device a.opened a.configured (fresh false)))

unfoldable pub pos_in : Option ℕ × List ℕ → List PosPayload
pos_in (none, buffer) = []
pos_in (some id, buffer) =
    if id == pos_id then pos_of_bytes (take pos_size (drop header_bytes buffer)) ∷ [] else []

unfoldable pub cov_in : Option ℕ × List ℕ → List CovPayload
cov_in (none, buffer) = []
cov_in (some id, buffer) =
    if id == cov_id then cov_of_bytes (take cov_size (drop header_bytes buffer)) ∷ [] else []

-- The positions and the covariances that come in.
unfoldable pub positions : List Answers → List PosPayload
unfolding pos_in
positions [] = []
positions (a ∷ answers) = pos_in (received a) ++ positions answers

unfoldable pub covariances : List Answers → List CovPayload
unfolding cov_in
covariances [] = []
covariances (a ∷ answers) = cov_in (received a) ++ covariances answers

abbrev pub firsts : List (PosPayload × CovPayload) → List PosPayload
firsts = map (λ p. p.0)

abbrev pub seconds_of : List (PosPayload × CovPayload) → List CovPayload
seconds_of = map (λ p. p.1)

-- Two steps of one order.
chain :
    {A P : Type 0} (f : A → P) (before between after new more : List P) (a b : List A)
    → Sublist (map f a ++ between) (before ++ new)
    → Sublist (map f b ++ after) (between ++ more)
    → Sublist (map f (a ++ b) ++ after) (before ++ (new ++ more))
chain f before between after new more a b h k =
    rw (map-append f a b, append_assoc (map f a) (map f b) after, ← append_assoc before new more)
      (Sublist.trans
        (subst (λ l. Sublist (map f a ++ (map f b ++ after)) l)
          (sym (append_assoc (map f a) between more)) (Sublist.append (Sublist.refl (map f a)) k))
        (Sublist.append h (Sublist.refl more)))

-- What a step without a publication does to one of the two messages.
pub kept : {P : Type 0} (xs ys : List P) → Sublist xs (xs ++ ys)
kept xs ys =
    subst (λ l. Sublist l (xs ++ ys)) (append-nil xs)
      (Sublist.append (Sublist.refl xs) (nil-sublist ys))

pub replaced : {P : Type 0} (xs ys : List P) → Sublist ys (xs ++ ys)
replaced xs ys = Sublist.append (nil-sublist xs) (Sublist.refl ys)

module _ {D : Type 0} where
  abbrev pub held_pos : Gps D → List PosPayload
  held_pos s = if s.has_pos then s.pending_pos ∷ [] else []

  abbrev pub held_cov : Gps D → List CovPayload
  held_cov s = if s.has_cov then s.pending_cov ∷ [] else []

module _ {D : Type 0} ⦃d : Double D⦄ where
  -- From one state to another: pairs of one time were published, and they and what is held are among
  -- what was held and what came in, in that order.
  pub record IsPairing (s t : Gps D) (pairs : List (PosPayload × CovPayload)) (ps : List PosPayload)
      (cs : List CovPayload) : Type 0 where
    pub pos_order : Sublist (firsts pairs ++ held_pos t) (held_pos s ++ ps)
    pub cov_order : Sublist (seconds_of pairs ++ held_cov t) (held_cov s ++ cs)
    pub made : t.published ≡ s.published ++ map (λ p. construct_gps_msg p.0 p.1) pairs
    pub one_time : All (λ p. p.0.i_tow ≡ p.1.i_tow) pairs

  pub IsPairing-trans :
      {s t u : Gps D} {a b : List (PosPayload × CovPayload)} {ps ps' : List PosPayload}
      {cs cs' : List CovPayload}
      → IsPairing s t a ps cs
      → IsPairing t u b ps' cs'
      → IsPairing s u (a ++ b) (ps ++ ps') (cs ++ cs')
  IsPairing-trans {s = s} {t = t} {u = u} {a = a} {b = b} {ps = ps} {ps' = ps'} {cs = cs}
        {cs' = cs'} h k =
      record {
        pos_order =
            chain _ (held_pos s) (held_pos t) (held_pos u) ps ps' a b h.pos_order k.pos_order;
        cov_order =
            chain _ (held_cov s) (held_cov t) (held_cov u) cs cs' a b h.cov_order k.cov_order;
        made = rw (k.made, h.made, map-append, append_assoc);
        one_time = All-append _ a b h.one_time k.one_time;
      }

  -- A step in which nothing comes in.
  pub IsPairing-then :
      {s t u : Gps D} {a b : List (PosPayload × CovPayload)} {ps : List PosPayload}
      {cs : List CovPayload}
      → IsPairing s t a ps cs
      → IsPairing t u b [] []
      → IsPairing s u (a ++ b) ps cs
  IsPairing-then {s = s} {u = u} {a = a} {b = b} {ps = ps} {cs = cs} h k =
      subst (λ l. IsPairing s u (a ++ b) l cs) (append-nil ps)
        (subst (λ l. IsPairing s u (a ++ b) (ps ++ []) l) (append-nil cs) (IsPairing-trans h k))

  pub unchanged : (s : Gps D) → IsPairing s s [] [] []
  unchanged s = record {
    pos_order = kept _ _;
    cov_order = kept _ _;
    made = sym (append-nil _);
    one_time = tt;
  }
