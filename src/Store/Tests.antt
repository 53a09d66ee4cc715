-- ===== src/Store/Tests.antt =====
-- The theorems about pootle_store at small data.
mod Stores
mod Syncing
use pootle.Base.{
  ◌≡◌, refl, Bool, true, false, ◌&&◌, ◌||◌, none, some, [], ◌∷◌, any, ◌==◌, nat_eq, string_eq,
  list_eq, arith, if◌then◌else◌,
}
use pootle.Store.Unit.{DbUnit, FileUnit, translated, update, isfuzzy, istranslated, isobsolete}
use pootle.Store.Unit.Update.{IsFileUnit, Agrees, Agrees-update, update-update}
use pootle.Store.Updater.{
  StoreUpdate, update_unit, need_update, should_update_target, should_update_comment,
  should_update_source, should_unobsolete, target_conflict_found, db_target_updated,
  db_state_updated, db_comment_updated, should_update_state,
}
use pootle.Store.Updater.Merge.{
  should_update_target_merge, target-update_unit, update_unit-pootle_wins, update_unit-source_wins,
  update_unit_loses_target, should_update_comment_ignored, update_unit_unchanged,
}

abbrev pub unit : DbUnit
unit = record {
  id = 1;
  unitid = "hello";
  index = 1;
  revision = 9;
  source = "Hello" ∷ [];
  plural = false;
  target = "Hallo" ∷ [];
  state = translated;
  developer_comment = none;
  translator_comment = none;
  locations = none;
  context = none;
}

abbrev pub synced : FileUnit
synced = record {
  unitid = "hello";
  source = "Hello" ∷ [];
  hasplural = false;
  target = "Hi" ∷ [];
  isfuzzy = true;
  istranslated = false;
  isobsolete = false;
  developer_notes = "";
  translator_notes = "";
  locations = "";
  context = "";
}

-- The file has another target and a comment.
abbrev pub in_file : FileUnit
in_file = record synced {
  target = "Servus" ∷ [];
  isfuzzy = false;
  istranslated = true;
  translator_notes = "checked";
}

abbrev pootle_first : StoreUpdate
pootle_first = record {
  pootle_wins = true;
  suggest_on_conflict = true;
  change_indices = true;
  indices = [];
  store_revision = some 5;
  update_revision = 10;
  user = 2;
}

abbrev pub file_first : StoreUpdate
file_first = record pootle_first { pootle_wins = false }

file-IsFileUnit : IsFileUnit in_file
file-IsFileUnit = record { plural = λ h. omega arith; singular = λ h. omega arith; named = refl }

Agrees-update_example :
    Agrees in_file (update 4 in_file unit).0
    × (isfuzzy (update 4 in_file unit).0 ≡ false)
    × ((update 4 in_file unit).0.id ≡ 1)
    × ((update 4 in_file unit).0.revision ≡ 9)
Agrees-update_example = Agrees-update 4 in_file unit file-IsFileUnit

-- The unit has a comment of its own, so that Pootle wins everywhere.
abbrev commented : DbUnit
commented = record unit { translator_comment = some "mine" }

conflict_in_file :
    (pootle_wins : Bool)
    → target_conflict_found
        (record pootle_first { pootle_wins = pootle_wins })
        (some synced)
        (some in_file)
        3
        4
        unit
      ≡ true
unfolding target_conflict_found
conflict_in_file pootle_wins = refl

not_unobsoleted :
    (pootle_wins : Bool)
    → should_unobsolete
        (record pootle_first { pootle_wins = pootle_wins })
        (some synced)
        (some in_file)
        3
        4
        unit
      ≡ false
unfolding should_unobsolete isobsolete
not_unobsoleted pootle_wins = refl

update_unit-source_wins_example :
    let updated = update_unit file_first (some synced) (some in_file) 3 4 unit [] in
    (updated.unit.target ≡ "Servus" ∷ [])
    × (any (λ s. s.unit == 1 && s.target == ("Hallo" ∷ [])) updated.pending ≡ true)
update_unit-source_wins_example =
    update_unit-source_wins file_first synced in_file 3 4 unit [] refl refl (conflict_in_file false)
      (not_unobsoleted false) refl

comment_asks : need_update pootle_first (some synced) (some in_file) 3 4 unit ≡ true
unfolding need_update should_unobsolete should_update_target should_update_source
    should_update_state should_update_comment isfuzzy istranslated isobsolete
comment_asks = refl

-- The file's comment asks for the update, and takes its target along.
update_unit_loses_target_example :
    let updated = update_unit pootle_first (some synced) (some in_file) 3 4 unit [] in
    (updated.unit.target ≡ "Servus" ∷ [])
    × ((updated.unit.target == ("Hallo" ∷ [])) ≡ false)
    × (updated.pending ≡ [])
update_unit_loses_target_example =
    update_unit_loses_target pootle_first synced in_file 3 4 unit [] refl (conflict_in_file true)
      comment_asks

-- The comment of `commented` is the one of the last synchronisation; the file has another.
abbrev own_comment : FileUnit
own_comment = record synced { translator_notes = "mine" }

abbrev other_comment : FileUnit
other_comment = record own_comment { translator_notes = "theirs" }

others_do_not_ask :
    (should_unobsolete pootle_first (some own_comment) (some other_comment) 3 4 commented
      || (should_update_target pootle_first (some own_comment) (some other_comment) 3 4 commented
          || (should_update_source pootle_first
                (some own_comment)
                (some other_comment)
                3
                4
                commented
              || should_update_state pootle_first
                  (some own_comment)
                  (some other_comment)
                  3
                  4
                  commented)))
    ≡ false
unfolding should_unobsolete should_update_target should_update_source should_update_state isfuzzy
    istranslated isobsolete
others_do_not_ask = refl

should_update_comment_ignored_example :
    let updated =
      update_unit pootle_first (some own_comment) (some other_comment) 3 4 commented [] in
    (updated.unit.translator_comment ≡ some "mine")
    × (updated.unit.target ≡ "Hallo" ∷ [])
    × (updated.unit.state ≡ translated)
should_update_comment_ignored_example =
    should_update_comment_ignored pootle_first own_comment other_comment 3 4 commented [] refl refl
      refl others_do_not_ask
