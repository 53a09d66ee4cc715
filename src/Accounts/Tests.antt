-- ===== src/Accounts/Tests.antt =====
-- The theorems about merging and purging at a small site.
use pootle.Base.{
  ℕ, true, false, some, none, List, [], ◌∷◌, map, ◌==◌, ◌&&◌, nat_eq, option_eq, if◌then◌else◌, All,
  ◌≡◌, refl, string_eq, Distinct, arith,
}
use pootle.Store.Unit.{translated}
use pootle.Accounts.Raise.{returned, raised, none_added}
use pootle.Accounts.Site.{
  Site, SiteUnit, UnitChange, Submission, target_field, comment_field, state_field,
}
use pootle.Accounts.Emails.{
  User, EmailAddress, Mails, changed, refused, not_unique, update_user_email, is_taken,
  find_address, is_primary_of, verify_user,
}
use pootle.Accounts.Emails.Unique.{
  emails, is_changed, is_others, tables_of, is_verified, Distinct-update_user_email,
  verify_user_lem,
}
use pootle.Accounts.Merge.{merge}
use pootle.Accounts.Merge.Forgets.{IsForgotten, merge-IsForgotten}
use pootle.Accounts.Reverts.{revert_units_edited, revert_units_commented}
use pootle.Accounts.Reverts.Edits.{unnamed-reverts}
use pootle.Accounts.Purge.{purge}
use pootle.Accounts.Purge.Gone.{IsPurged, purge-IsPurged, purge-returns}

-- User 8 translated the unit, and then user 7, who also left a comment and a suggestion.
abbrev edit : ℕ → ℕ → Submission
edit pk user = record {
  pk = pk;
  submitter = some user;
  unit = 1;
  suggestion = none;
  field = target_field;
  is_edit = true;
  new_value = if user == 7 then "mine" else "theirs";
  new_state = translated;
  creation_time = pk;
}

abbrev change : UnitChange
change = record {
  pk = 4;
  unit = 1;
  submitted_by = some 7;
  submitted_on = some 12;
  commented_by = some 7;
  commented_on = some 13;
  reviewed_by = none;
  reviewed_on = none;
}

abbrev site : Site
site = record {
  units =
      record {
        id = 1;
        store = 3;
        created_by = 2;
        creation_time = 5;
        target = "mine";
        state = translated;
        translator_comment = "see page 3";
        revision = 20;
      }
      ∷ [];
  changes = change ∷ [];
  submissions =
      edit 11 8
      ∷ edit 12 7
      ∷ record (edit 13 7) { field = comment_field; is_edit = false; new_value = "see page 3" }
      ∷ [];
  suggestions =
      record { pk = 1; unit = 1; user = 7; reviewer = none; is_pending = true; review_time = none }
      ∷ [];
  store_scores = 7 ∷ 8 ∷ [];
  tp_scores = 7 ∷ [];
  scores = (7, 4) ∷ (8, 6) ∷ [];
  revision = 20;
}

merge-IsForgotten_example : IsForgotten 7 (merge 7 8 site)
merge-IsForgotten_example = merge-IsForgotten 7 8 refl site

unnamed-reverts_example :
    All (λ c. (c.submitted_by == some 7) ≡ false) (revert_units_edited 7 site).0.changes
    × All (λ c. (c.commented_by == some 7) ≡ false) (revert_units_commented 7 site).0.changes
unnamed-reverts_example = unnamed-reverts 7 site

-- The other's edit is back.
edited : (map (λ (u : SiteUnit). u.target) (revert_units_edited 7 site).0.units) ≡ "theirs" ∷ []
unfolding revert_units_edited
edited = refl

purge-returns_example :
    (v : Site) × (stores : List ℕ) × (purge 7 site ≡ returned (v, stores)) × IsPurged 7 v
purge-returns_example = purge-returns 7 site (refl, (refl, (refl, tt)))

-- What a purge of user 7 leaves.
abbrev left : Site
left = record site {
  units =
      record {
        id = 1;
        store = 3;
        created_by = 2;
        creation_time = 5;
        target = "theirs";
        state = translated;
        translator_comment = "";
        revision = 22;
      }
      ∷ [];
  changes =
      record change {
        submitted_by = some 8;
        submitted_on = some 11;
        commented_by = none;
        commented_on = none;
      }
      ∷ [];
  submissions = edit 11 8 ∷ [];
  suggestions = [];
  revision = 22;
}

purged : purge 7 site ≡ returned (left, 3 ∷ 3 ∷ [])
unfolding purge
purged = refl

purge-IsPurged_example : IsPurged 7 left
purge-IsPurged_example = purge-IsPurged 7 site left (3 ∷ 3 ∷ []) purged

-- Someone else has changed the state since.
abbrev marked : ℕ → ℕ → Submission
marked pk user = record (edit pk user) { field = state_field; is_edit = false }

-- The loop ends the purge.
ended : purge 7 (record site { submissions = marked 14 7 ∷ marked 15 8 ∷ [] }) ≡ raised none_added
unfolding purge
ended = refl

abbrev mails : Mails
mails = record {
  users =
      record { id = 7; email = "ana@example.org" }
      ∷ record { id = 8; email = "bo@example.org" }
      ∷ [];
  addresses =
      record { owner = 8; address = "bo@example.org"; verified = true; primary = true } ∷ [];
}

-- What the other library adds for a user: an address of the user's own.
abbrev add_address : User → List EmailAddress → List EmailAddress
add_address u l = record { owner = u.id; address = u.email; verified = false; primary = false } ∷ l

Distinct-update_user_email_example :
    Distinct (
      emails
        (tables_of mails (
          update_user_email
            (λ a b. a == b)
            add_address
            (λ e. true)
            8
            "cy@example.org"
            mails)).users)
    × ((is_changed
            (update_user_email (λ a b. a == b) add_address (λ e. true) 8 "cy@example.org" mails)
          && is_others 8 "cy@example.org"
              (tables_of mails (
                update_user_email
                  (λ a b. a == b)
                  add_address
                  (λ e. true)
                  8
                  "cy@example.org"
                  mails)).addresses)
        ≡ false)
Distinct-update_user_email_example =
    Distinct-update_user_email (λ a b. a == b) add_address (λ e. true) 8 "cy@example.org" mails
      (refl, (refl, tt)) (refl, (refl, tt))

-- The row of the old address gets the new one, and stays verified.
renamed :
    update_user_email (λ a b. a == b) add_address (λ e. true) 8 "cy@example.org" mails
    ≡ changed (record {
      users =
          record { id = 7; email = "ana@example.org" }
          ∷ record { id = 8; email = "cy@example.org" }
          ∷ [];
      addresses =
          record { owner = 8; address = "cy@example.org"; verified = true; primary = true } ∷ [];
    })
unfolding update_user_email
renamed = refl

taken :
    update_user_email (λ a b. a == b) add_address (λ e. true) 7 "bo@example.org" mails
    ≡ refused not_unique
unfolding update_user_email
taken = refl

abbrev ana : User
ana = record { id = 7; email = "ana@example.org" }

ana_free : is_taken "ana@example.org" (some 7) mails ≡ false
unfolding is_taken
ana_free = refl

no_primary :
    (a : EmailAddress)
    → find_address (is_primary_of 7) mails.addresses ≡ some a
    → a.verified ≡ false
unfolding find_address
no_primary a e = ground arith

verify_user_lem_example :
    (n : Mails) × (verify_user (λ a b. a == b) add_address ana mails ≡ changed n)
    × (is_verified 7 n.addresses ≡ true)
verify_user_lem_example =
    verify_user_lem (λ a b. a == b) add_address ana mails refl ana_free no_primary refl
