-- ===== src/Benchctl/Journal/Roundtrip.antt =====
-- Journals on disks whose calls do not fail.
use Prim.Native.String.{String}
use snoozer.Prelude.{◌≡◌, refl, ap, ◌∙◌, some}
use snoozer.Errors.{ok}
use snoozer.Benchctl.Paths.{FileName, replace, lookup-replace}
use snoozer.Benchctl.Host.{World, value}
use snoozer.Benchctl.Host.Ending.{Faultless, attempt-then-Faultless}
use snoozer.Benchctl.Runtime.{atomic_write-Faultless}
use snoozer.Benchctl.Journal.{Codec, Journal, validate, store, load}
use snoozer.Benchctl.Journal.Stored.{IsFaithful, Stored}

module _ (c : Codec) (path : FileName) (j : Journal) (w : World) where
  -- A valid journal that is in its file is loaded.
  pub load-Faultless :
      Faultless w
      → validate c j ≡ ok tt
      → Stored c path w.operations j
      → load c path w ≡ (value j, w)
  unfolding load
  load-Faultless h v (bytes, l, r) = attempt-then-Faultless _ _ w h ∙ rw l (rw r (rw v refl))

  pub store-Faultless :
      (bytes : String)
      → Faultless w
      → validate c j ≡ ok tt
      → c.to_vec_pretty j ≡ some bytes
      → store c path j w ≡ (value tt, record w { operations = replace path bytes w.operations })
  unfolding store
  store-Faultless bytes h v e = rw v (rw e (atomic_write-Faultless path bytes w h))

-- A valid journal that is stored while no call fails is loaded again as it was. serde_json can write
-- it, and reads back what it has written.
pub load-store :
    (c : Codec) (path : FileName) (j : Journal) (bytes : String) (w : World)
    → IsFaithful c
    → Faultless w
    → validate c j ≡ ok tt
    → c.to_vec_pretty j ≡ some bytes
    → (load c path ((store c path j w).1)).0 ≡ value j
load-store c path j bytes w faithful h v e =
    ap (λ o. (load c path (o.1)).0) (store-Faultless c path j w bytes h v e)
    ∙ ap (λ o. o.0)
        (load-Faultless c path j (record w { operations = replace path bytes w.operations }) h v
          (bytes, lookup-replace path bytes w.operations, faithful j bytes e))
