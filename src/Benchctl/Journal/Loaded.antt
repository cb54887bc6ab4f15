-- ===== src/Benchctl/Journal/Loaded.antt =====
-- Loading a journal changes nothing, and what is loaded is what the file holds.
use Prim.Native.String.{String}
use snoozer.Prelude.{◌≡◌, refl, subst, Option, none, some, arith}
use snoozer.Errors.{Result, ok, err}
use snoozer.Benchctl.Paths.{FileName, Directory, lookup}
use snoozer.Benchctl.Errors.{BenchError}
use snoozer.Benchctl.Host.{Tree, World, pure, lift_result}
use snoozer.Benchctl.Host.Ending.{Disk, On, Kept, attempt-then}
use snoozer.Benchctl.Host.Steady.{Still, Steady, Steady-bind, Steady-attempt}
use snoozer.Benchctl.Journal.{
  Codec, Journal, or_json, file_contents, read_file, load, validate, journal_path, journal_name,
  read_boot_id,
}
use snoozer.Benchctl.Journal.Stored.{Stored}

pub journal_path-ok :
    (id : String) (path : FileName) → journal_path id ≡ ok path → path ≡ journal_name id
unfolding journal_path
journal_path-ok id path h = grind (arith, h)

pub read_boot_id-Kept : (I : Disk) (w : World) → On I w → Kept I (read_boot_id w)
unfolding read_boot_id
read_boot_id-Kept I w h = attempt-then I (λ _. On I) (On I) _ _ w h (λ _ x. x) (λ u hu. hu)

module _ (t : Tree) (d : Directory) where
  pub lift_result-Steady :
      {A : Type 0} (r : Result A BenchError) (w : World)
      → Still t d w
      → Steady t d (λ a. r ≡ ok a) (lift_result r w)
  lift_result-Steady (ok a) w h = (h, refl)
  lift_result-Steady (err e) w h = h

  file_contents-Steady :
      (op : String) (o : Option String) (w : World)
      → Still t d w
      → Steady t d (λ bytes. o ≡ some bytes) (file_contents op o w)
  file_contents-Steady op none w h = h
  file_contents-Steady op (some bytes) w h = (h, refl)

  read_file-Steady :
      (op : String) (path : FileName) (w : World)
      → Still t d w
      → Steady t d (λ bytes. lookup path d ≡ some bytes) (read_file op path w)
  read_file-Steady op path w h =
      subst (λ e. Steady t d (λ bytes. lookup path e ≡ some bytes) (read_file op path w)) h.1
        (file_contents-Steady op (lookup path w.operations) w h)

  module _ (c : Codec) where
    pub load-Steady :
        (path : FileName) (w : World) → Still t d w → Steady t d (Stored c path d) (load c path w)
    unfolding load
    load-Steady path w h = Steady-attempt t d (Stored c path d) _ _ w h (λ u hu.
        Steady-bind t d (λ bytes. lookup path d ≡ some bytes) (Stored c path d) _
          (read_file "reading journal" path) u (read_file-Steady "reading journal" path u hu)
          (λ bytes u hu p.
            Steady-bind t d (λ j. or_json "reading journal" (c.from_slice bytes) ≡ ok j)
              (Stored c path d) _ (lift_result (or_json "reading journal" (c.from_slice bytes))) u
              (lift_result-Steady (or_json "reading journal" (c.from_slice bytes)) u hu)
              (λ j u hu q.
                Steady-bind t d (λ a. validate c j ≡ ok a) (Stored c path d) (λ _. pure j)
                  (lift_result (validate c j)) u (lift_result-Steady (validate c j) u hu)
                  (λ _ u hu _. (hu, (bytes, p, parsed (c.from_slice bytes) j q))))))
      where
        parsed :
            (o : Option Journal) (j : Journal) → or_json "reading journal" o ≡ ok j → o ≡ some j
        parsed none j h = ground arith
        parsed (some k) j h = ground arith
