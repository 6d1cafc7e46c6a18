-- ===== src/Outbox/Fifo.antt =====
-- The buffer as a queue: what it holds back, in order.
use go_notify.Base.{
  suc, ◌<◌, ◌≤◌, ◌≡◌, ◌≢◌, ◌⊎◌, inl, refl, true, false, List, [], ◌∷◌, ◌++◌, some, arith,
  if◌then◌else◌, length, length-append, drop, drop-append_le, drop_all, drop-get_elem?, length-take,
}
use go_notify.Outbox.{Outbox, initial, put, offer, sent}

module _ {A : Type 0} where
  -- The values not yet sent, oldest first.
  unfoldable pub pending : Outbox A → List A
  pending o = if o.ready then drop o.idx o.buf else []

  -- With the channel variable nil only the place holder is left; else the index is in range.
  abbrev pub IsWell : Outbox A → Type 0
  IsWell o =
      ((o.ready ≡ false) × (o.idx ≡ 0) × (length o.buf ≡ 1))
      ⊎ ((o.ready ≡ true) × (1 ≤ o.idx) × (o.idx < length o.buf))

  pub initial-IsWell : (a : A) → IsWell (initial a)
  unfolding initial
  initial-IsWell a = inl (refl, refl, refl)

  pub pending-initial : (a : A) → pending (initial a) ≡ []
  unfolding initial pending
  pending-initial a = refl

  pub put-IsWell : (a : A) (o : Outbox A) → IsWell o → IsWell (put a o)
  unfolding put
  put-IsWell a o w = ground (arith, length-append o.buf (a ∷ []))

  pub pending-put : (a : A) (o : Outbox A) → IsWell o → pending (put a o) ≡ pending o ++ a ∷ []
  unfolding put pending
  pending-put a o w = ground (
    arith,
    length-append o.buf (a ∷ []),
    drop-append_le o.idx o.buf (a ∷ []),
    drop-append_le 1 o.buf (a ∷ []),
    drop_all 1 o.buf,
  )

  -- The operand of the send's case is always in range, so `select` does not panic.
  pub offer_total : (o : Outbox A) → IsWell o → (v : A) × (offer o ≡ some v)
  unfolding offer
  offer_total o w = let (v, e, _) = drop-get_elem? o.idx o.buf (ground arith) in (v, e)

  pub sent-IsWell : (o : Outbox A) → IsWell o → o.ready ≡ true → IsWell (sent o)
  unfolding sent
  sent-IsWell o w h = ground (arith, length-take 1 o.buf)

  -- A send takes the oldest pending value away.
  pub sent-pending :
      (o : Outbox A) (v : A)
      → IsWell o
      → o.ready ≡ true
      → offer o ≡ some v
      → pending o ≡ v ∷ pending (sent o)
  unfolding offer sent pending
  sent-pending o v w h e =
      let inside : o.idx < length o.buf = ground arith in
      let (u, got, split) = drop-get_elem? o.idx o.buf inside in
      ground (arith, drop_all (suc o.idx) o.buf)

  pub pending-ready : (o : Outbox A) → IsWell o → pending o ≢ [] → o.ready ≡ true
  unfolding pending
  pending-ready o w h = ground arith
