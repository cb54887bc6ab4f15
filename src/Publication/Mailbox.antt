-- ===== src/Publication/Mailbox.antt =====
-- The token is a mailbox for one notification, whichever way the producers notify.
use snoozer.Prelude.{ℕ, ◌≡◌, refl, Bool, true, false, List, [], ◌∷◌, arith}
use snoozer.Parker.{empty_token, notified_token}
use snoozer.Publication.{Channel, new_pair, unpark_single, unpark_multi, take}

pub data Op : Type 0 where
  unpark : ℕ → Op  -- a notification of a producer
  look : Op  -- an attempt to take the token

-- What the attempts find, when the producers notify by `notify`.
pub finds : (ℕ → Channel → Channel) → List Op → Channel → List Bool
finds notify [] c = []
finds notify (unpark p ∷ ops) c = finds notify ops (notify p c)
finds notify (look ∷ ops) c = (take c).0 ∷ finds notify ops (take c).1

-- The specification: a flag that a notification raises and an attempt lowers.
abbrev pub mailbox : List Op → Bool → List Bool
mailbox [] full = []
mailbox (unpark p ∷ ops) full = mailbox ops true
mailbox (look ∷ ops) full = full ∷ mailbox ops false

abbrev flag : Bool → ℕ
flag true = notified_token
flag false = empty_token

unpark_multi-flag :
    (p : ℕ) (full : Bool) (c : Channel) → c.token ≡ flag full → (unpark_multi p c).token ≡ flag true
unfolding unpark_multi
unpark_multi-flag p true c e = rw e
unpark_multi-flag p false c e = rw e

take-flag :
    (full : Bool) (c : Channel)
    → c.token ≡ flag full
    → ((take c).0 ≡ full) × ((take c).1.token ≡ flag false)
unfolding take
take-flag true c e = ground (arith, e)
take-flag false c e = ground (arith, e)

finds-mailbox :
    (notify : ℕ → Channel → Channel)
    → ((p : ℕ) (full : Bool) (c : Channel) → c.token ≡ flag full → (notify p c).token ≡ flag true)
    → (ops : List Op) (full : Bool) (c : Channel) → c.token ≡ flag full
    → finds notify ops c ≡ mailbox ops full
unfolding finds
finds-mailbox notify sets [] full c e = refl
finds-mailbox notify sets (unpark p ∷ ops) full c e =
    finds-mailbox notify sets ops true (notify p c) (sets p full c e)
finds-mailbox notify sets (look ∷ ops) full c e =
    let (found, left) = take-flag full c e in
    cc (found, finds-mailbox notify sets ops false (take c).1 left)

-- From a new pair, for every order of notifications and attempts, the attempts of the consumer find
-- what they find in a mailbox for one notification, both with the store of the single producer and
-- with the read-modify-write of many: notifications coalesce, none is lost, none is found twice.
pub finds-eq-mailbox :
    (ops : List Op)
    → (finds unpark_single ops new_pair ≡ mailbox ops false)
      × (finds unpark_multi ops new_pair ≡ mailbox ops false)
finds-eq-mailbox ops = (
  finds-mailbox unpark_single (λ p full c e. unfold unpark_single in refl) ops false new_pair refl,
  finds-mailbox unpark_multi unpark_multi-flag ops false new_pair refl,
)
