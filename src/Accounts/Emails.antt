-- ===== src/Accounts/Emails.antt =====
-- pootle/apps/accounts/utils.py: the e-mail addresses of users. An update that raises leaves the
-- tables as they are.
pub mod Unique
use pootle.Base.{
  ℕ, String, Bool, true, false, not, ◌&&◌, ◌||◌, Option, none, some, List, [], ◌∷◌, map, ◌==◌,
  nat_eq, string_eq, if◌then◌else◌, any,
}

pub record User : Type 0 where
  pub id : ℕ
  pub email : String

pub record EmailAddress : Type 0 where
  pub owner : ℕ
  pub address : String
  pub verified : Bool
  pub primary : Bool

pub record Mails : Type 0 where
  pub users : List User
  pub addresses : List EmailAddress

-- The `ValidationError`s, the `ValueError`, an attribute of None, and `User.DoesNotExist`.
pub data EmailError : Type 0 where
  no_email not_unique invalid already_verified no_address no_user : EmailError

pub data Checked : Type 0 where
  refused : EmailError → Checked
  changed : Mails → Checked

-- Whether another user than `for_user` has the address.
abbrev pub is_for : Option ℕ → ℕ → Bool
is_for none id = false
is_for (some user) id = id == user

unfoldable pub is_taken : String → Option ℕ → Mails → Bool
is_taken email for_user m =
    any (λ (u : User). u.email == email && not (is_for for_user u.id)) m.users
    || any (λ (a : EmailAddress). a.address == email && not (is_for for_user a.owner)) m.addresses

unfoldable pub find_user : ℕ → List User → Option User
find_user id [] = none
find_user id (u ∷ users) = if u.id == id then some u else find_user id users

unfoldable pub set_email : ℕ → String → List User → List User
set_email id email [] = []
set_email id email (u ∷ users) =
    (if u.id == id then record u { email = email } else u) ∷ set_email id email users

-- A change of the first address that passes a test.
unfoldable pub change_address :
    (EmailAddress → Bool) → (EmailAddress → EmailAddress) → List EmailAddress → List EmailAddress
change_address p f [] = []
change_address p f (a ∷ l) = if p a then f a ∷ l else a ∷ change_address p f l

unfoldable pub find_address : (EmailAddress → Bool) → List EmailAddress → Option EmailAddress
find_address p [] = none
find_address p (a ∷ l) = if p a then some a else find_address p l

abbrev pub is_primary_of : ℕ → EmailAddress → Bool
is_primary_of user a = a.owner == user && a.primary

module _ (iexact : String → String → Bool) where
  -- The addresses of the user by `email__iexact`, and those that `order_by("primary")` puts first.
  abbrev pub is_address_of : User → EmailAddress → Bool
  is_address_of u a = a.owner == u.id && iexact a.address u.email

  abbrev pub is_first_address : User → List EmailAddress → EmailAddress → Bool
  is_first_address u l a =
      is_address_of u a && (not a.primary || not (any (λ b. is_address_of u b && not b.primary) l))

  -- The end of `verify_user`, for a user without a primary address.
  unfoldable pub verify_synced : User → List EmailAddress → Mails → Checked
  unfolding change_address
  verify_synced u l m =
      if any (is_address_of u) l
      then changed (record m {
        addresses =
            change_address (is_first_address u l)
              (λ a. record a { verified = true; primary = true }) l;
      })
      else refused no_address

  -- The addresses of a user that are the old one, by `email__iexact`, with the new one in their place.
  unfoldable pub replace_address : ℕ → String → String → List EmailAddress → List EmailAddress
  replace_address id old_email email [] = []
  replace_address id old_email email (a ∷ l) =
      (if a.owner == id && iexact a.address old_email then record a { address = email } else a)
      ∷ replace_address id old_email email l

  module _ (sync_user_email_addresses : User → List EmailAddress → List EmailAddress) where
    -- `User.sync_email`, by the address that the user had.
    unfoldable pub sync_email : User → String → List EmailAddress → List EmailAddress
    unfolding replace_address
    sync_email u old_email l =
        if not (old_email == u.email)
        then replace_address u.id old_email u.email l
        else sync_user_email_addresses u l

    -- `User.save`, of a user that has been given an address.
    unfoldable pub save_user : User → Mails → Checked
    unfolding find_user set_email sync_email
    save_user u m = elim (find_user u.id m.users) [
      | none ↦ refused no_user
      | some old ↦ changed (record {
        users = set_email u.id u.email m.users;
        addresses = sync_email u old.email m.addresses;
      })
    ]

    -- `update_user_email`; `validate_email` is Django's.
    unfoldable pub update_user_email : (String → Bool) → ℕ → String → Mails → Checked
    unfolding is_taken save_user
    update_user_email validate_email id email m =
        if is_taken email none m
        then refused not_unique
        else if not (validate_email email)
        then refused invalid
        else save_user (record { id = id; email = email }) m

    -- `verify_user`, after the tests of the address, by its primary address.
    abbrev pub verify_primary : User → Option EmailAddress → Mails → Checked
    verify_primary u (some a) m =
        if a.verified
        then refused already_verified
        else changed (record m {
          addresses =
              change_address (is_primary_of u.id) (λ b. record b { verified = true }) m.addresses;
        })
    verify_primary u none m = verify_synced u (sync_user_email_addresses u m.addresses) m

    unfoldable pub verify_user : User → Mails → Checked
    unfolding is_taken find_address verify_synced
    verify_user u m =
        if u.email == ""
        then refused no_email
        else if is_taken u.email (some u.id) m
        then refused not_unique
        else verify_primary u (find_address (is_primary_of u.id) m.addresses) m
