-- ===== src/Auth/Restarts.antt =====
-- internal/platform/auth: a restart of the server, whose bootstrap sets a password, after a user has
-- changed theirs.
use running_tools.Prelude.{
  ℕ, ◌≡◌, ◌⊎◌, refl, Bool, false, Option, none, some, [], arith, ◌==◌, ◌&&◌, find, ok, Result-cases,
  inl, inr,
}
use running_tools.Prelude.Text.{Text, text, text_eq}
use running_tools.Auth.Types.{UserRecord, Database, Call, User, Principal}
use running_tools.Auth.Database.{
  update_password, bootstrap_user, find_user_by_id, user_with, set_password,
}
use running_tools.Auth.Tables.{user_with-modify}
use running_tools.Auth.Backing.{user_with-id}
use running_tools.Auth.Password.{Crypto, hash_password}
use running_tools.Auth.Login.{normalize_username}
use running_tools.Auth.Service.{change_password}
use running_tools.Auth.Revocation.{change_password-update, found-id}
use running_tools.Auth.Startup.{Config, bootstrap, new_service}

nobody : (id : ℕ) → user_with id [] ≡ none
unfolding find
nobody id = refl

-- A user who is past the first password change keeps their row.
bootstrap_user-settled :
    (c : Call) (next_id id : ℕ) (username hash : Text) (d d' : Database) (u : UserRecord)
    → bootstrap_user c next_id username hash d ≡ ok d'
    → user_with id d.users ≡ some u
    → u.must_change_password ≡ false
    → user_with id d'.users ≡ some u
unfolding bootstrap_user
bootstrap_user-settled c next_id id username hash d d' u h f m =
    let p = (λ (v : UserRecord). text_eq v.username username && v.must_change_password) in
    let g = (λ (v : UserRecord). record v { password_hash = hash }) in
    let e = user_with-modify id p g d.users u (λ v. refl) f in ground (arith, nobody id)

update_password-user :
    (c : Call) (id : ℕ) (hash current : Text) (d d' : Database) (u : UserRecord)
    → update_password c id hash current d ≡ ok d'
    → user_with id d.users ≡ some u
    → user_with id d'.users ≡ some (set_password hash u)
unfolding update_password
update_password-user c id hash current d d' u h f =
    let i = user_with-id id d.users u f in
    let e = user_with-modify id (λ v. v.id == id) (set_password hash) d.users u (λ v. refl) f in
    ground arith

found-row :
    (c : Call) (id : ℕ) (d : Database) (w : UserRecord)
    → find_user_by_id c id d ≡ ok w
    → user_with id d.users ≡ some w
unfolding find_user_by_id
found-row c id d w h = ground arith

new_service-bootstrap_user :
    (k : Crypto) (c : Call) (next_id : ℕ) (dummy_salt salt : Option Text) (has_database : Bool)
    (cfg : Config) (d : Database)
    → let d' = (new_service k c next_id dummy_salt salt has_database cfg d).0 in
      (d' ≡ d) ⊎ ((name : Text) × (hash : Text) × (bootstrap_user c next_id name hash d ≡ ok d'))
unfolding new_service bootstrap
new_service-bootstrap_user k c next_id none salt has_database cfg d = inl (ground arith)
new_service-bootstrap_user k c next_id (some t) none has_database cfg d = inl (ground arith)
new_service-bootstrap_user k c next_id (some t) (some s) has_database cfg d =
    let name = normalize_username cfg.admin_username in
    let hash = hash_password k s (text "admin123") in
    elim (Result-cases (bootstrap_user c next_id name hash d)) [
      | inl (d', e) ↦
          let out = (new_service k c next_id (some t) (some s) has_database cfg d).0 in
          let split : (out ≡ d) ⊎ (out ≡ d') = ground arith in
          elim split [ inl f ↦ inl f | inr f ↦ inr (name, hash, rw f e) ]
      | inr (x, e) ↦ inl (ground arith)
    ]

-- What ChangePassword stores of the user is what a later start of the server leaves, though its
-- bootstrap sets the first password: the hash is that of the new password with the salt drawn, and
-- no further change is asked for.
pub change_password-new_service :
    (k : Crypto) (c : Call) (salt : Option Text) (p : Principal) (current new : Text) (d : Database)
    (u : User) (c' : Call) (next_id : ℕ) (dummy_salt first_salt : Option Text) (has_database : Bool)
    (cfg : Config)
    → (change_password k c salt p current new d).1 ≡ ok u
    → let d' = (change_password k c salt p current new d).0 in
      let d'' = (new_service k c' next_id dummy_salt first_salt has_database cfg d').0 in
      (s : Text) × (w : UserRecord) × (salt ≡ some s)
      × (user_with p.user.id d''.users ≡ some w)
      × (w.password_hash ≡ hash_password k s new)
      × (w.must_change_password ≡ false)
unfolding find_user_by_id
change_password-new_service k c salt p current new d u c' next_id ds fs has cfg h =
    let (s, w, t, f, g) = change_password-update k c salt p current new d u h in
    let d' = (change_password k c salt p current new d).0 in
    let hash = hash_password k s new in
    let r = found-row c p.user.id d w f in
    let i = found-id k c p.user.id d w f in
    let e : user_with p.user.id d'.users ≡ some (set_password hash w) =
      update_password-user c p.user.id hash p.token_hash d d' w (rw i at g) r in
    (
      s,
      set_password hash w,
      t,
      elim (new_service-bootstrap_user k c' next_id ds fs has cfg d') [
        | inl x ↦ rw x e
        | inr (name, first, x) ↦
            bootstrap_user-settled c' next_id p.user.id name first d' _ (set_password hash w) x e
              refl
      ],
      refl,
      refl,
    )
