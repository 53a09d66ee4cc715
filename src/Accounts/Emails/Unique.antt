-- ===== src/Accounts/Emails/Unique.antt =====
-- The addresses of users stay distinct, and a user that is verified has a verified address.
use pootle.Base.{
  ℕ, String, Bool, true, false, not, ◌&&◌, Option, none, some, List, [], ◌∷◌, map, ◌==◌, nat_eq,
  string_eq, eq_iff, any, contains, Distinct, ◌≡◌, refl, sym, ap, ◌∙◌, arith, Bool-cases,
  Option-cases, inl, inr,
}
use pootle.Accounts.Emails.{
  User, EmailAddress, Mails, Checked, changed, refused, is_taken, set_email, find_user,
  replace_address, sync_email, save_user, update_user_email, change_address, find_address,
  is_primary_of, is_address_of, is_first_address, verify_synced, verify_primary, verify_user,
}

abbrev pub emails : List User → List String
emails = map (λ u. u.email)

abbrev pub user_ids : List User → List ℕ
user_ids = map (λ u. u.id)

-- The tables that an update gives.
abbrev pub tables_of : Mails → Checked → Mails
tables_of m (changed n) = n
tables_of m (refused e) = m

emails-set_email_others :
    (id : ℕ) (email : String) (users : List User)
    → contains id (user_ids users) ≡ false
    → set_email id email users ≡ users
unfolding set_email
emails-set_email_others id email [] h = refl
emails-set_email_others id email (u ∷ users) h = elim (Bool-cases (u.id == id)) [
  | inl same ↦ ground (arith, nat_eq.eqb_iff u.id id, nat_eq.eqb_iff id u.id)
  | inr other ↦ rw other (ap (λ l. u ∷ l) (emails-set_email_others id email users (ground arith)))
]

contains-set_email :
    (q email : String) (id : ℕ) (users : List User)
    → contains q (emails users) ≡ false
    → (q == email) ≡ false
    → contains q (emails (set_email id email users)) ≡ false
unfolding set_email
contains-set_email q email id [] h k = refl
contains-set_email q email id (u ∷ users) h k = elim (Bool-cases (u.id == id)) [
  | inl same ↦ rw same (ground (arith, contains-set_email q email id users (ground arith) k))
  | inr other ↦ rw other (ground (arith, contains-set_email q email id users (ground arith) k))
]

Distinct-set_email :
    (id : ℕ) (email : String) (users : List User)
    → Distinct (user_ids users)
    → contains email (emails users) ≡ false
    → Distinct (emails users)
    → Distinct (emails (set_email id email users))
unfolding set_email
Distinct-set_email id email [] i t d = tt
Distinct-set_email id email (u ∷ users) i t d = elim (Bool-cases (u.id == id)) [
  | inl same ↦
      rw
        (
          same,
          emails-set_email_others id email users
              (ap (λ x. contains x (user_ids users)) (sym ((nat_eq.eqb_iff u.id id).0 same)) ∙ i.0),
        )
        (ground arith, d.1)
  | inr other ↦ rw other (
    contains-set_email u.email email id users d.0
        (ground (arith, eq_iff u.email email, eq_iff email u.email)),
    Distinct-set_email id email users i.1 (ground arith) d.1,
  )
]

not_among :
    (email : String) (users : List User)
    → any (λ u. u.email == email && true) users ≡ false
    → contains email (emails users) ≡ false
not_among email [] h = refl
not_among email (u ∷ users) h =
    ground (arith, not_among email users (ground arith), eq_iff u.email email, eq_iff email u.email)

not_taken :
    (email : String) (m : Mails)
    → is_taken email none m ≡ false
    → contains email (emails m.users) ≡ false
unfolding is_taken
not_taken email m h = not_among email m.users (ground arith)

abbrev email_of : User → Option User → String
email_of d none = d.email
email_of d (some u) = u.email

abbrev pub is_changed : Checked → Bool
is_changed (changed n) = true
is_changed (refused e) = false

-- Another user has the address in the addresses' table.
abbrev pub is_others : ℕ → String → List EmailAddress → Bool
is_others id email l = any (λ a. a.address == email && not (a.owner == id)) l

module _ (iexact : String → String → Bool) where
  others-replace_address :
      (id : ℕ) (old_email email : String) (l : List EmailAddress)
      → any (λ a. a.address == email && true) l ≡ false
      → is_others id email (replace_address iexact id old_email email l) ≡ false
  unfolding replace_address
  others-replace_address id old_email email [] h = refl
  others-replace_address id old_email email (a ∷ l) h =
      ground (arith, others-replace_address id old_email email l (ground arith))

  found_among :
      (id : ℕ) (users : List User) (old : User)
      → find_user id users ≡ some old
      → contains old.email (emails users) ≡ true
  unfolding find_user
  found_among id [] old e = ground arith
  found_among id (u ∷ users) old e = elim (Bool-cases (u.id == id)) [
    | inl hit ↦ ground (arith, ap (email_of u) (rw hit at e), eq_iff old.email u.email)
    | inr miss ↦ ground (arith, found_among id users old (rw miss at e))
  ]

  module _ (sync_user_email_addresses : User → List EmailAddress → List EmailAddress) where
    saved-Distinct :
        (id : ℕ) (email : String) (m : Mails)
        → is_taken email none m ≡ false
        → Distinct (user_ids m.users)
        → Distinct (emails m.users)
        → Distinct (
            emails
              (tables_of m (
                save_user iexact sync_user_email_addresses
                  (record { id = id; email = email })
                  m)).users)
    unfolding save_user
    saved-Distinct id email m free i d = elim (Option-cases (find_user id m.users)) [
      | inl absent ↦ rw (absent, save_user) d
      | inr (old, found) ↦
          rw (found, save_user) (Distinct-set_email id email m.users i (not_taken email m free) d)
    ]

    sync_others :
        (u : User) (old_email : String) (l : List EmailAddress)
        → (old_email == u.email) ≡ false
        → any (λ a. a.address == u.email && true) l ≡ false
        → is_others u.id u.email (sync_email iexact sync_user_email_addresses u old_email l) ≡ false
    unfolding sync_email
    sync_others u old_email l differs h =
        rw differs (others-replace_address u.id old_email u.email l h)

    saved_others :
        (id : ℕ) (email : String) (m : Mails)
        → is_taken email none m ≡ false
        → (is_changed
              (save_user iexact sync_user_email_addresses (record { id = id; email = email }) m)
            && is_others id email
                (tables_of m (
                  save_user iexact sync_user_email_addresses
                    (record { id = id; email = email })
                    m)).addresses)
          ≡ false
    unfolding save_user
    saved_others id email m free = elim (Option-cases (find_user id m.users)) [
      | inl absent ↦ rw (absent, save_user) refl
      | inr (old, found) ↦
          let differs : (old.email == email) ≡ false = elim (Bool-cases (old.email == email)) [
            | inl same ↦ ground (
              arith,
              ap (λ e. contains e (emails m.users)) ((eq_iff old.email email).0 same),
              found_among id m.users old found,
              not_taken email m free,
            )
            | inr other ↦ other
          ] in
          rw (found, save_user)
            (sync_others (record { id = id; email = email }) old.email m.addresses differs
              (unfold is_taken in ground arith))
    ]

    -- update_user_email, whether it succeeds or not, leaves the e-mail addresses of the users
    -- distinct, if they were and the keys of the users are; and where it succeeds, the
    -- addresses that User.save leaves to the other users do not have the user's new one among
    -- them.
    pub Distinct-update_user_email :
        (validate_email : String → Bool) (id : ℕ) (email : String) (m : Mails)
        → Distinct (user_ids m.users)
        → Distinct (emails m.users)
        → let result =
            update_user_email iexact sync_user_email_addresses validate_email id email m in
          Distinct (emails (tables_of m result).users)
          × ((is_changed result && is_others id email (tables_of m result).addresses) ≡ false)
    unfolding update_user_email
    Distinct-update_user_email validate_email id email m i d =
        elim (Bool-cases (is_taken email none m)) [
          | inl taken ↦ rw taken (d, refl)
          | inr free ↦ elim (Bool-cases (validate_email email)) [
            | inl valid ↦
                rw (free, valid) (saved-Distinct id email m free i d, saved_others id email m free)
            | inr bad ↦ rw (free, bad) (d, refl)
          ]
        ]

-- Whether a user has a verified primary address.
abbrev pub is_verified : ℕ → List EmailAddress → Bool
is_verified user l = any (λ a. a.owner == user && (a.verified && a.primary)) l

any-change_address :
    (p q : EmailAddress → Bool) (f : EmailAddress → EmailAddress) (l : List EmailAddress)
    → ((a : EmailAddress) → p a ≡ true → q (f a) ≡ true)
    → any p l ≡ true
    → any q (change_address p f l) ≡ true
unfolding change_address
any-change_address p q f [] h k = ground arith
any-change_address p q f (a ∷ l) h k = elim (Bool-cases (p a)) [
  | inl hit ↦ rw hit (ground (arith, h a hit))
  | inr miss ↦ rw miss (ground (arith, any-change_address p q f l h (ground arith)))
]

any-imp :
    (p q : EmailAddress → Bool) (l : List EmailAddress)
    → ((a : EmailAddress) → p a ≡ true → q a ≡ true)
    → any p l ≡ true
    → any q l ≡ true
any-imp p q [] h k = k
any-imp p q (a ∷ l) h k = elim (Bool-cases (p a)) [
  | inl hit ↦ ground (arith, h a hit)
  | inr miss ↦ ground (arith, any-imp p q l h (ground arith))
]

any-found :
    (p : EmailAddress → Bool) (l : List EmailAddress) (a : EmailAddress)
    → find_address p l ≡ some a
    → any p l ≡ true
unfolding find_address
any-found p [] a e = ground arith
any-found p (b ∷ l) a e = elim (Bool-cases (p b)) [
  | inl hit ↦ ground arith
  | inr miss ↦ ground (arith, any-found p l a (rw miss at e))
]

module _ (iexact : String → String → Bool) where
  any-is_first_address :
      (u : User) (l : List EmailAddress)
      → any (is_address_of iexact u) l ≡ true
      → any (is_first_address iexact u l) l ≡ true
  any-is_first_address u l h =
      elim (Bool-cases
        (any (λ b. (b.owner == u.id && iexact b.address u.email) && not b.primary) l)) [
          | inl k ↦ any-imp _ _ l (λ a e. ground arith) k
          | inr k ↦ any-imp _ _ l (λ a e. ground arith) h
        ]

  synced_is :
      (u : User) (l : List EmailAddress) (m : Mails)
      → any (is_address_of iexact u) l ≡ true
      → verify_synced iexact u l m
        ≡ changed (record m {
          addresses =
              change_address
                (is_first_address iexact u l)
                (λ a. record a { verified = true; primary = true })
                l;
        })
  unfolding verify_synced
  synced_is u l m h = rw h refl

  module _ (sync_user_email_addresses : User → List EmailAddress → List EmailAddress) where
    -- verify_user succeeds and leaves the user with a verified primary address, if the user
    -- has an address that no one else has, the first primary address, if there is one, is not
    -- verified, and sync_user_email_addresses gives the user an address.
    pub verify_user_lem :
        (u : User) (m : Mails)
        → (u.email == "") ≡ false
        → is_taken u.email (some u.id) m ≡ false
        → ((a : EmailAddress)
            → find_address (is_primary_of u.id) m.addresses ≡ some a
            → a.verified ≡ false)
        → any (is_address_of iexact u) (sync_user_email_addresses u m.addresses) ≡ true
        → (n : Mails) × (verify_user iexact sync_user_email_addresses u m ≡ changed n)
          × (is_verified u.id n.addresses ≡ true)
    unfolding verify_user
    verify_user_lem u m named free unverified synced =
        rw (named, free) (by_primary (find_address (is_primary_of u.id) m.addresses) refl)
      where
        by_primary :
            (o : Option EmailAddress)
            → find_address (is_primary_of u.id) m.addresses ≡ o
            → (n : Mails) × (verify_primary iexact sync_user_email_addresses u o m ≡ changed n)
              × (is_verified u.id n.addresses ≡ true)
        by_primary (some a) e = (
          record m {
            addresses =
                change_address (is_primary_of u.id) (λ b. record b { verified = true }) m.addresses;
          },
          rw (unverified a e) refl,
          any-change_address (is_primary_of u.id) _ _ m.addresses (λ b h. ground arith)
              (any-found (is_primary_of u.id) m.addresses a e),
        )
        by_primary none e =
            let l = sync_user_email_addresses u m.addresses in
            (
              record m {
                addresses =
                    change_address (is_first_address iexact u l)
                      (λ a. record a { verified = true; primary = true }) l;
              },
              synced_is u l m synced,
              any-change_address (is_first_address iexact u l) _ _ l (λ b h. ground arith)
                  (any-is_first_address u l synced),
            )
