-- ===== src/Tests/Publishing.antt =====
-- Publications and notifications in concrete orders.
use snoozer.Prelude.{◌≡◌, refl, inl, inr, false, [], ◌∷◌}
use snoozer.Publication.{Channel, new_pair, publish, unpark_single, unpark_multi, take}
use snoozer.Publication.Visibility
use snoozer.Publication.Visibility.{
  Member, System, Reach, SingleReach, multi_visible, single_visible, shared_store_loses,
}
use snoozer.Publication.Mailbox.{unpark, look, finds, mailbox, finds-eq-mailbox}

-- Producer 1 publishes 10 and notifies, then producer 2 publishes 20 and notifies.
abbrev coalesced : Channel
coalesced = unpark_multi 2 (publish 2 20 (unpark_multi 1 (publish 1 10 new_pair)))

abbrev both : System
both = record { channel = coalesced; notified = 20 ∷ 10 ∷ [] }

both-Reach : Reach both
unfolding unpark_multi
both-Reach =
    Reach.next
      (Reach.next
        (Reach.next (Reach.next Reach.start (Visibility.Step.writes 1 10))
          (Visibility.Step.notifies 1))
        (Visibility.Step.writes 2 20))
      (Visibility.Step.notifies 2)

multi_visible_example : Member 10 (take both.channel).1.view
unfolding take unpark_multi
multi_visible_example = multi_visible both-Reach refl 10 (inr (inl refl))

abbrev alone : System
alone = record { channel = unpark_single 1 (publish 1 10 new_pair); notified = 10 ∷ [] }

alone-SingleReach : SingleReach 1 alone
unfolding unpark_single
alone-SingleReach =
    SingleReach.next (SingleReach.next SingleReach.start (Visibility.SingleStep.writes 10))
      Visibility.SingleStep.notifies

single_visible_example : Member 10 (take alone.channel).1.view
unfolding take unpark_single
single_visible_example = single_visible alone-SingleReach refl 10 (inl refl)

finds-eq-mailbox_example :
    (finds unpark_single (unpark 1 ∷ unpark 2 ∷ look ∷ look ∷ []) new_pair
      ≡ mailbox (unpark 1 ∷ unpark 2 ∷ look ∷ look ∷ []) false)
    × (finds unpark_multi (unpark 1 ∷ unpark 2 ∷ look ∷ look ∷ []) new_pair
        ≡ mailbox (unpark 1 ∷ unpark 2 ∷ look ∷ look ∷ []) false)
finds-eq-mailbox_example = finds-eq-mailbox (unpark 1 ∷ unpark 2 ∷ look ∷ look ∷ [])
