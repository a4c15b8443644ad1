-- ===== src/Users/Valid.antt =====
-- Every stored subscriber satisfies the rules of the requests.
use honey.Prelude.{
  ℕ, String, Bool, true, false, not, ◌&&◌, Option, none, some, ◌≡◌, refl, ap, sym, subst, ◌∙◌,
  arith, [], ◌||◌, is_none_or, is_some_and, Bool-cases, ◌==◌, if◌then◌else◌, Option-cases, inl, inr,
  unwrap_or,
}
use honey.Prelude.Text.{trim, is_empty}
use honey.Prelude.Keys.{nat_eq, get, insert, get-insert}
use honey.Api.{is_negative, ok, IsAccepted}
use honey.Access.{Identity}
use honey.Inbound.{Patch, missing, null, value}
use honey.Inbound.Store.{patch_parts, case_when}
use honey.Users.{Users, Admin, created_user, updated_user, owned_user, create_user, update_user}
use honey.Users.Limits.{unknown-refused}
use honey.Users.Types.{User, NewUser, UpdateUser}
use honey.Users.Validate.{fits_if_some, is_policy, on_value, validate_user, validate_update_user}

-- A name that is not blank, a password, no negative limit, texts of the right lengths and a known
-- policy.
abbrev pub is_valid : User → Bool
is_valid user =
    not (is_empty (trim user.username))
    && not (is_empty user.password)
    && not (is_negative user.traffic_limit_bytes)
    && fits_if_some 25 user.subscription_title
    && fits_if_some 200 user.subscription_description
    && fits_if_some 40 user.subscription_group
    && is_policy user.subscription_traffic_policy true

created_user-is_valid :
    (id : ℕ) (input : NewUser) (creator : Option ℕ)
    → IsAccepted (validate_user input)
    → is_valid (created_user id input creator) ≡ true
unfolding validate_user created_user
created_user-is_valid id input creator h = ground arith

text_fits-case_when :
    (max : ℕ) (patch : Patch String) (o : Option String)
    → fits_if_some max (on_value patch) ≡ true
    → fits_if_some max o ≡ true
    → fits_if_some max (case_when (patch_parts patch) o) ≡ true
unfolding patch_parts
text_fits-case_when max missing o h k = k
text_fits-case_when max null o h k = refl
text_fits-case_when max (value s) o h k = h

update-parts :
    (input : UpdateUser)
    → IsAccepted (validate_update_user input)
    → ((is_some_and input.username (λ v. is_empty (trim v)) || is_some_and input.password is_empty)
        ≡ false)
      × (is_some_and input.traffic_limit_bytes is_negative ≡ false)
      × (fits_if_some 25 (on_value input.subscription_title) ≡ true)
      × (fits_if_some 200 (on_value input.subscription_description) ≡ true)
      × (fits_if_some 40 (on_value input.subscription_group) ≡ true)
      × (is_none_or input.subscription_traffic_policy (λ p. is_policy p true) ≡ true)
unfolding validate_update_user
update-parts input h = ground arith

valid-parts :
    (a b c d e f g : Bool)
    → (a && b && c && d && e && f && g) ≡ true
    → (a ≡ true) × (b ≡ true) × (c ≡ true) × (d ≡ true) × (e ≡ true) × (f ≡ true) × (g ≡ true)
valid-parts a b c d e f g h = ground arith

valid-join :
    (a b c d e f g : Bool)
    → a ≡ true
    → b ≡ true
    → c ≡ true
    → d ≡ true
    → e ≡ true
    → f ≡ true
    → g ≡ true
    → (a && b && c && d && e && f && g) ≡ true
valid-join a b c d e f g ha hb hc hd he hf hg = ground arith

-- A field that a change may set keeps a test that both the old value and the new one pass.
unwrap_or-keeps :
    {A : Type 0} (p : A → Bool) (o : Option A) (d : A)
    → is_none_or o p ≡ true
    → p d ≡ true
    → p (unwrap_or o d) ≡ true
unwrap_or-keeps p none d h k = k
unwrap_or-keeps p (some a) d h k = h

none_or-not :
    {A : Type 0} (p : A → Bool) (o : Option A)
    → is_some_and o p ≡ false
    → is_none_or o (λ a. not (p a)) ≡ true
none_or-not p none h = refl
none_or-not p (some a) h = ap not h

neither : (a b : Bool) → (a || b) ≡ false → (a ≡ false) × (b ≡ false)
neither a b h = ground arith

updated_user-is_valid :
    (input : UpdateUser) (row : User)
    → IsAccepted (validate_update_user input)
    → is_valid row ≡ true
    → is_valid (updated_user input row) ≡ true
unfolding updated_user
updated_user-is_valid input row h k =
    let new = update-parts input h in
    let old = valid-parts _ _ _ _ _ _ _ k in
    let texts = neither _ _ new.0 in
    valid-join _ _ _ _ _ _ _
      (unwrap_or-keeps (λ v. not (is_empty (trim v))) input.username row.username
        (none_or-not (λ v. is_empty (trim v)) input.username texts.0) old.0)
      (unwrap_or-keeps (λ v. not (is_empty v)) input.password row.password
        (none_or-not is_empty input.password texts.1) old.1)
      (unwrap_or-keeps (λ v. not (is_negative v)) input.traffic_limit_bytes row.traffic_limit_bytes
        (none_or-not is_negative input.traffic_limit_bytes new.1) old.2)
      (text_fits-case_when 25 input.subscription_title row.subscription_title new.2 old.3)
      (text_fits-case_when 200 input.subscription_description row.subscription_description new.3
        old.4)
      (text_fits-case_when 40 input.subscription_group row.subscription_group new.4 old.5)
      (unwrap_or-keeps (λ p. is_policy p true) input.subscription_traffic_policy
        row.subscription_traffic_policy new.5 old.6)

-- The subscribers that are reached from none by requests that are accepted, whoever sends them.
pub data Stored : Users → Type 0 where
  empty : Stored []
  created :
      (id : ℕ) (identity : Identity) (admin : Option Admin) (used : ℕ) (input : NewUser)
      (users users' : Users)
      → Stored users
      → create_user id identity admin used input users ≡ ok users'
      → Stored users'
  updated :
      (id : ℕ) (identity : Identity) (input : UpdateUser) (users users' : Users)
      → Stored users
      → update_user id identity input users ≡ ok users'
      → Stored users'

create_user-passed :
    (id : ℕ) (identity : Identity) (admin : Option Admin) (used : ℕ) (input : NewUser)
    (users users' : Users)
    → create_user id identity admin used input users ≡ ok users'
    → IsAccepted (validate_user input)
      × (users' ≡ insert id (created_user id input identity.admin_id) users)
unfolding create_user
create_user-passed id identity admin used input users users' h = ground arith

update_user-passed :
    (id : ℕ) (identity : Identity) (input : UpdateUser) (users users' : Users) (row : User)
    → update_user id identity input users ≡ ok users'
    → get id users ≡ some row
    → IsAccepted (validate_update_user input) × (users' ≡ insert id (updated_user input row) users)
unfolding update_user owned_user
update_user-passed id identity input users users' row h found = ground arith

-- After a valid row is written, whatever is found is valid.
written-is_valid :
    (j : ℕ) (row : User) (users : Users) (id : ℕ) (user : User)
    → is_valid row ≡ true
    → ((u : User) → get id users ≡ some u → is_valid u ≡ true)
    → get id (insert j row users) ≡ some user
    → is_valid user ≡ true
written-is_valid j row users id user new old h = elim (Bool-cases (j == id)) [
  | inl same ↦
      subst (λ o. is_some_and o is_valid ≡ true)
        (sym (get-insert j id row users ∙ ap (λ b. if b then some row else get id users) same) ∙ h)
        new
  | inr other ↦
      old user
        (sym (get-insert j id row users ∙ ap (λ b. if b then some row else get id users) other) ∙ h)
]

-- Every subscriber that requests have created and changed has a name and a password, no negative
-- limit, texts of the lengths that a client shows and a known policy.
pub Stored-is_valid :
    (users : Users)
    → Stored users
    → (id : ℕ) (user : User) → get id users ≡ some user
    → is_valid user ≡ true
unfolding get
Stored-is_valid users empty id user h = ground arith
Stored-is_valid users (created j identity admin used input old _ s e) id user h =
    let parts = create_user-passed j identity admin used input old users e in
    written-is_valid j (created_user j input identity.admin_id) old id user
      (created_user-is_valid j input identity.admin_id parts.0) (Stored-is_valid old s id)
      (ap (get id) (sym parts.1) ∙ h)
Stored-is_valid users (updated j identity input old _ s e) id user h =
    elim (Option-cases (get j old)) [
      | inl gone ↦ absurd (unknown-refused j identity input old users e gone)
      | inr (row, found) ↦
          let parts = update_user-passed j identity input old users row e found in
          written-is_valid j (updated_user input row) old id user
            (updated_user-is_valid input row parts.0 (Stored-is_valid old s j row found))
            (Stored-is_valid old s id) (ap (get id) (sym parts.1) ∙ h)
    ]
