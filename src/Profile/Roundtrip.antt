-- ===== src/Profile/Roundtrip.antt =====
-- What is read back of an authority profile (programs/vow/src/instructions/authority_profile/).
use vow_protocol.Prelude.{
  ℕ, zero, suc, ap, sym, ◌∙◌, ◌-◌, ◌≤◌, ◌≡◌, refl, min, ◌==◌, if◌then◌else◌, Option, some, List, [],
  ◌∷◌, length, take, drop, take-append, length-append, arith,
}
use native.Mathlib.Nat.{min-eq_left, min-eq_right}
use native.Mathlib.Decide.{dec_lt}
use vow_protocol.Prelude.Machine.{as_u8}
use vow_protocol.State.Errors.{Result, ok, ◌>>=◌, >>=-eq-ok, ok-injective}
use vow_protocol.State.Accounts.{Pubkey, AuthorityProfile, max_program_ids, metadata_uri_max_len}
use vow_protocol.State.Runtime.{Clock, Runtime, profile_pda}
use vow_protocol.Session.Opens.{slice_to-fill_program_ids}
use vow_protocol.Treasury.Spend.{slice_to}
use vow_protocol.Profile.{
  AuthorityProfileParams, blank_profile, copy_prefix, write_params, write_uri,
  create_authority_profile, update_authority_profile,
}

take_all : (xs : List ℕ) (n : ℕ) → length xs ≤ n → take n xs ≡ xs
take_all [] zero h = refl
take_all [] (suc n) h = refl
take_all (x ∷ xs) (suc n) h = ap (λ ys. x ∷ ys) (take_all xs n (omega arith))
take_all (x ∷ xs) zero h = absurd (omega arith)

take-min : (n : ℕ) (xs : List ℕ) → take (min (length xs) n) xs ≡ take n xs
take-min n xs = elim (dec_lt n (length xs)) [
  | yes short ↦ rw (min-eq_right {n = n} {m = length xs} (omega arith)) refl
  | no long ↦
      let fits : length xs ≤ n = omega arith in
      rw (min-eq_left fits) (take_all xs (length xs) (omega arith) ∙ sym (take_all xs n fits))
]

length-take : (n : ℕ) (xs : List ℕ) → n ≤ length xs → length (take n xs) ≡ n
length-take zero xs h = refl
length-take (suc n) [] h = absurd (omega arith)
length-take (suc n) (x ∷ xs) h = ap suc (length-take n xs (omega arith))

length-drop : (n : ℕ) (xs : List ℕ) → length (drop n xs) ≡ length xs - n
length-drop zero xs = omega arith
length-drop (suc n) [] = omega arith
length-drop (suc n) (x ∷ xs) = omega (arith, length-drop n xs)

-- The first bytes are the new ones, and the rest stays.
slice_to-copy_prefix :
    (n : ℕ) (new old : List ℕ)
    → n ≤ length new
    → n ≤ length old
    → (slice_to (copy_prefix n new old) n ≡ some (take n new))
      × (length (copy_prefix n new old) ≡ length old)
unfolding slice_to copy_prefix
slice_to-copy_prefix n new old h k = ground (
  arith,
  length-take n new h,
  take-append (take n new) (drop n old),
  length-append (take n new) (drop n old),
  length-drop n old,
)

-- What reads the account the way `create_session` and `yield_spend` read theirs finds the parameters.
pub record Holds (params : AuthorityProfileParams) (r : AuthorityProfile) : Type 0 where
  pub daily : r.default_daily_limit ≡ params.default_daily_limit
  pub lifetime : r.default_lifetime_limit ≡ params.default_lifetime_limit
  pub days : r.default_expiry_days ≡ params.default_expiry_days
  pub ids :
      slice_to r.default_allowed_program_ids r.program_count
      ≡ some params.default_allowed_program_ids
  pub uri : slice_to r.metadata_uri r.uri_len ≡ some params.metadata_uri
  pub room : length r.metadata_uri ≡ metadata_uri_max_len

-- The parameters that count after an update: an empty URI leaves the old one, and of a longer one
-- than there is room for, the first bytes count.
unfoldable pub over : AuthorityProfileParams → AuthorityProfileParams → AuthorityProfileParams
over old new = record new {
  metadata_uri =
      if length new.metadata_uri == 0
      then old.metadata_uri
      else take metadata_uri_max_len new.metadata_uri;
}

abbrev pub latest : AuthorityProfileParams → List AuthorityProfileParams → AuthorityProfileParams
latest params [] = params
latest params (new ∷ later) = latest (over params new) later

abbrev pub update_all :
    Pubkey → List AuthorityProfileParams → AuthorityProfile → Result AuthorityProfile
update_all wallet [] r = ok r
update_all wallet (params ∷ later) r =
    update_authority_profile wallet params r >>= update_all wallet later

write_uri-Holds :
    (new : List ℕ) (r : AuthorityProfile)
    → length r.metadata_uri ≡ metadata_uri_max_len
    → let r' = write_uri new r in
      (slice_to r'.metadata_uri r'.uri_len ≡ some (take metadata_uri_max_len new))
      × (length r'.metadata_uri ≡ metadata_uri_max_len)
unfolding write_uri
write_uri-Holds new r room =
    let n = min (length new) metadata_uri_max_len in
    let less : (n ≤ length new) × (n ≤ metadata_uri_max_len) = omega arith in
    let byte : as_u8 n ≡ n = omega (arith, less) in
    let (read, kept) =
      slice_to-copy_prefix n new r.metadata_uri less.0 (omega (arith, less, room)) in
    (rw byte (read ∙ ap some (take-min metadata_uri_max_len new)), kept ∙ room)

-- All but the URI.
record HoldsLimits (params : AuthorityProfileParams) (r : AuthorityProfile) : Type 0 where
  daily : r.default_daily_limit ≡ params.default_daily_limit
  lifetime : r.default_lifetime_limit ≡ params.default_lifetime_limit
  days : r.default_expiry_days ≡ params.default_expiry_days
  ids :
      slice_to r.default_allowed_program_ids r.program_count
      ≡ some params.default_allowed_program_ids

write_params-Holds :
    (params : AuthorityProfileParams) (r : AuthorityProfile)
    → length params.default_allowed_program_ids ≤ max_program_ids
    → let r' = write_params params r in
      HoldsLimits params r' × (r'.metadata_uri ≡ r.metadata_uri) × (r'.uri_len ≡ r.uri_len)
unfolding write_params
write_params-Holds params r h =
    ground (arith, slice_to-fill_program_ids params.default_allowed_program_ids)

write_uri_keeps :
    (new : List ℕ) (params : AuthorityProfileParams) (r : AuthorityProfile)
    → HoldsLimits params r
    → HoldsLimits params (write_uri new r)
unfolding write_uri
write_uri_keeps new params r f = ground arith

update_authority_profile-Holds :
    (wallet : Pubkey) (old new : AuthorityProfileParams) (r r' : AuthorityProfile)
    → Holds old r
    → update_authority_profile wallet new r ≡ ok r'
    → Holds (over old new) r'
unfolding update_authority_profile over
update_authority_profile-Holds wallet old new r r' f h = ground (
  arith,
  write_params-Holds new r,
  write_uri-Holds new.metadata_uri (write_params new r),
  write_uri_keeps new.metadata_uri new (write_params new r),
)

module _ {B : Type 0} (rt : Runtime B) where
  create_authority_profile-Holds :
      (clock : Clock) (wallet : Pubkey) (id : List ℕ) (params : AuthorityProfileParams)
      (old : Option AuthorityProfile) (r : AuthorityProfile)
      → create_authority_profile rt clock wallet id params old ≡ ok r
      → Holds params r
  unfolding create_authority_profile
  create_authority_profile-Holds clock wallet id params old r h =
      let blank : AuthorityProfile = record blank_profile {
        wallet = wallet;
        profile_id = id;
        created_at = clock.unix_timestamp;
        bump = (profile_pda rt wallet id).1;
      } in
      let e : r ≡ write_uri params.metadata_uri (write_params params blank) = ground arith in
      let fits : length params.metadata_uri ≤ metadata_uri_max_len = ground arith in
      let limits = write_params-Holds params blank (ground arith) in
      let uri = write_uri-Holds params.metadata_uri (write_params params blank) refl in
      let kept = write_uri_keeps params.metadata_uri params (write_params params blank) limits.0 in
      rw e (record {
        daily = kept.daily;
        lifetime = kept.lifetime;
        days = kept.days;
        ids = kept.ids;
        uri = uri.0 ∙ ap some (take_all params.metadata_uri metadata_uri_max_len fits);
        room = uri.1;
      })

  update_all-Holds :
      (wallet : Pubkey) (later : List AuthorityProfileParams) (params : AuthorityProfileParams)
      (r r' : AuthorityProfile)
      → Holds params r
      → update_all wallet later r ≡ ok r'
      → Holds (latest params later) r'
  update_all-Holds wallet [] params r r' f h = rw (ok-injective r r' h) at f
  update_all-Holds wallet (new ∷ later) params r r' f h =
      let (u, ran, rest) = >>=-eq-ok (update_authority_profile wallet new r) _ h in
      update_all-Holds wallet later (over params new) u r'
        (update_authority_profile-Holds wallet params new r u f ran) rest

  -- What a wallet writes into its authority profile is what is read from it: after the profile is created
  -- and then updated any number of times, the limits, the days to expiry and the first `program_count` of
  -- the program ids are those of the last call, and the first `uri_len` bytes of the URI are those of the last
  -- URI that was not empty (of one given to an update, the first 128).
  pub create_authority_profile-update_all :
      (clock : Clock) (wallet : Pubkey) (id : List ℕ) (params : AuthorityProfileParams)
      (later : List AuthorityProfileParams) (old : Option AuthorityProfile) (r : AuthorityProfile)
      → (create_authority_profile rt clock wallet id params old >>= update_all wallet later) ≡ ok r
      → Holds (latest params later) r
  create_authority_profile-update_all clock wallet id params later old r h =
      let (first, ran, rest) =
        >>=-eq-ok (create_authority_profile rt clock wallet id params old) _ h in
      update_all-Holds wallet later params first r
        (create_authority_profile-Holds clock wallet id params old first ran) rest
