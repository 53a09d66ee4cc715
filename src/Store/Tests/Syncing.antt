-- ===== src/Store/Tests/Syncing.antt =====
-- The theorems about the synchronisation of a store to its file at small data.
use pootle.Base.{
  String, Bool, true, false, not, some, List, [], ◌∷◌, ◌++◌, map, ◌≡◌, refl, contains, inl, inr,
  string_eq,
}
use pootle.Store.Syncer.{SyncUnit, DiskUnits, sync}
use pootle.Store.Syncer.Kept.{KeepsIds, ids_of, new_units_of, ids-sync, contains-sync}

pub record FileEntry : Type 0 where
  pub msgid : String
  pub marked_obsolete : Bool
  pub has_target : Bool

abbrev entry : String → FileEntry
entry msgid = record { msgid = msgid; marked_obsolete = false; has_target = true }

abbrev toolkit : DiskUnits FileEntry
toolkit = record {
  getid = λ u. u.msgid;
  isobsolete = λ u. u.marked_obsolete;
  istranslated = λ u. u.has_target;
  makeobsolete = λ u. record u { marked_obsolete = true };
  convert = λ s. entry s.unitid;
  sync_unit = λ s u. (record u { has_target = true }, not u.has_target);
}

toolkit-KeepsIds : KeepsIds toolkit
toolkit-KeepsIds = record { makeobsolete_keeps = λ u. refl; sync_keeps = λ s u. refl }

abbrev db_units : List SyncUnit
db_units =
    record { id = 1; unitid = "open"; revision = 4; is_live = true }
    ∷ record { id = 2; unitid = "save"; revision = 9; is_live = true }
    ∷ []

-- The store has no unit for `quit` and `exit`; `exit` is not translated.
abbrev file_units : List FileEntry
file_units = entry "open" ∷ entry "quit" ∷ record (entry "exit") { has_target = false } ∷ []

synced : sync toolkit db_units (some 3) 9 true false file_units ≡ (
  true,
  (
    record { obsolete = 1; deleted = 1; added = 1; updated = 0 },
    entry "open"
        ∷ record (entry "quit") { marked_obsolete = true }
        ∷ record (entry "exit") { has_target = false }
        ∷ entry "save"
        ∷ [],
  ),
)
unfolding sync
synced = refl

-- Nothing is to be changed, and the file is said to have changed.
nothing_to_do :
    (sync toolkit
      (record { id = 1; unitid = "open"; revision = 4; is_live = true } ∷ [])
      (some 4)
      4
      true
      true
      (entry "open" ∷ [])).0
    ≡ true
unfolding sync
nothing_to_do = refl

ids-sync_example :
    ids_of toolkit (sync toolkit db_units (some 3) 9 true false file_units).1.1
    ≡ ids_of toolkit file_units
      ++ map (λ s. toolkit.getid (toolkit.convert s)) (new_units_of toolkit db_units file_units)
ids-sync_example = ids-sync toolkit toolkit-KeepsIds db_units (some 3) 9 true false file_units

contains-sync_example :
    contains "save" (ids_of toolkit (sync toolkit db_units (some 3) 9 true false file_units).1.1)
    ≡ true
contains-sync_example =
    contains-sync toolkit toolkit-KeepsIds db_units (some 3) 9 false file_units
      (record { id = 2; unitid = "save"; revision = 9; is_live = true }) (λ s. refl)
      (inr (inl refl)) refl
