-- ===== src/Samples.antt =====
-- A concrete Redis, database, cryptography and settings that meet the interfaces, for evaluation
-- and for the tests.
pub mod Encoding
pub mod ToyRedis
pub mod Ordering
pub mod CachedLinks
use open_profile_be.Entities.{AuthProvider, Invite, User, active, email}
use open_profile_be.Prelude.{
  Bool, List, Option, String, if◌then◌else◌, [], any, count_where, eq_refl, false, first, greatest,
  is_some, keep, key, last_where, map_where, none, not, refl, reject, some, true, ◌&&◌, ◌||◌, ◌==◌,
  ◌≡◌,
}
use Encoding.{
  opened, put, put-ne-empty, read, read-written, size, signed, signed_reset, take, unary,
  verified_at, verified_at-signed, verified_reset, verified_reset-signed, written,
}
use ToyRedis.{toy_redis}
use CachedLinks.{read_links, read_links-written_links, written_links}
use Ordering.{first_position, first_position-matches, first_position-finds}
use open_profile_be.Prelude.{◌∷◌, sort_rows, sort_rows-IsAscending, sort_rows_count}
use open_profile_be.Services.{PageCodec, PageTables, Services, TrackingTables, Web}
use open_profile_be.Entities.Notifications.{same_dedupe}
use open_profile_be.Entities.Content.{ProfileContent}
use open_profile_be.Entities.PublicProfiles.{CachedPage, not_found_mark, page}
use open_profile_be.Services.Database.{Repository, all_apart, inserted, rows_of, unless_clashing}
use open_profile_be.Services.Security.{Crypto}
use open_profile_be.Services.Settings.{Environment}
use open_profile_be.World.{Pages, World}

pub rows_of-id : {A : Type 0} (o : Option (List A)) → rows_of (λ t. t) o ≡ o
rows_of-id none = refl
rows_of-id (some t) = refl

-- A table as the list of its rows; `clashes` are its unique indexes.
abbrev pub table : {A : Type 0} → (A → A → Bool) → Repository A
table {A} clashes = record {
  Table = List A;
  rows = λ t. t;
  clashes = clashes;
  find_one = first;
  find_latest = last_where;
  insert = λ a t. inserted (any (clashes a) t) t a;
  update = map_where;
  update_unique = λ p f t. unless_clashing (all_apart clashes (map_where p f t)) (map_where p f t);
  find = keep;
  find_ordered = λ order p t. sort_rows order (keep p t);
  select_max = λ order p t. greatest order (keep p t);
  delete = λ p t. (count_where p t, reject p t);
  find_one_lem = λ p t. refl;
  find_latest_lem = λ p t. refl;
  find_lem = λ p t. refl;
  find_ordered-IsAscending = λ order p t. sort_rows-IsAscending order (keep p t);
  find_ordered_count = λ order p q t. sort_rows_count order q (keep p t);
  select_max_lem = λ order p t. refl;
  rows-insert = λ a t. rows_of-id (inserted (any (clashes a) t) t a);
  rows-update = λ p f t. refl;
  rows-update_unique =
      λ p f t. rows_of-id (unless_clashing (all_apart clashes (map_where p f t)) (map_where p f t));
  rows-delete = λ p t. refl;
  affected_lem = λ p t. refl;
}

abbrev pub same_invite : Invite → Invite → Bool
same_invite a b =
    a.inviter_user_id == b.inviter_user_id
    && a.recipient_email == b.recipient_email
    && not (is_some a.claimed_at)
    && not (is_some b.claimed_at)

-- Hashes are marked texts, and a token names its claims by a fixed text.
abbrev pub toy_crypto : Crypto
toy_crypto = record {
  argon2_hash = λ n plain. key "h" plain;
  argon2_verify = λ hash plain. hash == key "h" plain;
  sha256 = λ s. key "s" s;
  uuid = λ n. key "u" (unary n);
  uuid_order = size;
  random_hex = λ n. key "x" (unary n);
  random_otp = λ n. "123456";
  to_lower = λ s. s;
  sign_access = signed;
  verify_access = verified_at;
  verify_access_ignoring_expiration = λ token. some (opened token);
  sign_reset = signed_reset;
  verify_reset = verified_reset;
  verify-hash = λ n plain. eq_refl (key "h" plain);
  verify-sign_access = verified_at-signed;
  verify-sign_reset = verified_reset-signed;
}

abbrev pub toy_settings : Environment
toy_settings = record {
  node_env = "production";
  cookie_domain = "openprofile.test";
  database_name = "db";
  frontend_url = "https://openprofile.test";
  jwt_access_expires_in = 900;
  invite_expiry_days = some 7;
  profile_view_milestones = 10 ∷ 100 ∷ [];
  encode_uri_component = λ s. s;
  trim = λ s. s;
  to_utc_string = λ t. "";
  stringify_tokens = written;
  parse_tokens = read;
  stringify_state = λ s. put s.meta "";
  parse_state = λ s. some (record { meta = (take s).0; created_at = 0 });
  parse-stringify = read-written;
  stringify-ne-empty = λ t. put-ne-empty t.access_token (put t.refresh_token "");
}

abbrev pub toy_pages : PageTables
toy_pages = record {
  profiles = table (λ a b. a.id == b.id || a.username == b.username || a.user_id == b.user_id);
  components =
      table
        (λ a b. a.id == b.id || (a.profile_id == b.profile_id && a.section_type == b.section_type));
  skills = table (λ a b. a.id == b.id);
  education = table (λ a b. a.id == b.id);
  work_experience = table (λ a b. a.id == b.id);
  awards = table (λ a b. a.id == b.id);
  drafts = table (λ a b. a.id == b.id || a.profile_id == b.profile_id);
  joined = first_position;
  joined-matches = first_position-matches;
  joined-finds = first_position-finds;
}

abbrev blank_content : ProfileContent
blank_content = record {
  section_order = none;
  bio_part = none;
  links_part = none;
  projects_part = none;
  cta_part = none;
  work_experience_part = none;
  education_part = none;
  skills_part = none;
}

-- The page that every text but the mark stands for.
abbrev pub any_page : CachedPage
any_page = page "" "" (record {
  username = "";
  full_name = "";
  photo_url = none;
  template_type = none;
  theme_settings = none;
  appearance = none;
  content = blank_content;
  skills = [];
  education = [];
  work_experience = [];
  awards = [];
  sections = [];
})

abbrev mark_or_page : CachedPage → String
mark_or_page not_found_mark = "mark"
mark_or_page (page profile user body) = "page"

pub mark_or_page-ne-empty : (p : CachedPage) → (mark_or_page p == "") ≡ false
mark_or_page-ne-empty not_found_mark = refl
mark_or_page-ne-empty (page profile user body) = refl

-- The sample's drafts differ in their biographies alone.
abbrev same_biography : Option String → Option String → Bool
same_biography none none = true
same_biography (some s) (some t) = s == t
same_biography _ _ = false

abbrev pub toy_codec : PageCodec
toy_codec = record {
  stringify_page = mark_or_page;
  parse_page = λ s. if s == "mark" then not_found_mark else any_page;
  md5 = λ s. key "m" s;
  is_unchanged = λ d e. same_biography d.bio e.bio;
  parse-stringify_mark = refl;
  stringify_page-ne-empty = mark_or_page-ne-empty;
}

-- Every text is a host, and its own address.
abbrev pub toy_web : Web
toy_web = record {
  parse_url = λ s.
      some (record { hostname = s; protocol = "https:"; lowered_href = s; search = ""; hash = "" });
  lookup_address = λ s. some s;
  is_valid_phone_number = λ s. true;
  to_iso_string = λ n. unary n;
}

abbrev pub toy_tracking : TrackingTables
toy_tracking = record {
  events = table (λ a b. a.id == b.id);
  failed_events = table (λ a b. a.id == b.id);
  notifications = table same_dedupe;
  clashes-same_dedupe = λ a b. refl;
  stringify_links = written_links;
  parse_links = read_links;
  parse-stringify_links = read_links-written_links;
}

abbrev pub sample : Services
sample = record {
  redis = toy_redis;
  users = table (λ a b. a.email == b.email);
  refresh_tokens = table (λ a b. a.id == b.id);
  invites = table same_invite;
  status_history = table (λ a b. a.id == b.id);
  pages = toy_pages;
  page_codec = toy_codec;
  web = toy_web;
  tracking = toy_tracking;
  crypto = toy_crypto;
  env = toy_settings;
}

abbrev pub empty_pages : Pages sample
empty_pages = record {
  profiles = [];
  components = [];
  skills = [];
  education = [];
  work_experience = [];
  awards = [];
  drafts = [];
}

abbrev pub empty_world : World sample
empty_world = record {
  now = 1000000;
  drawn = 0;
  redis = λ k. none;
  redis_up = true;
  queue_up = true;
  mail_up = true;
  database_up = true;
  users = [];
  refresh_tokens = [];
  invites = [];
  status_history = [];
  pages = empty_pages;
  tracking = record {
    events = [];
    failed_events = [];
    notifications = [];
    pushed = [];
    batches = [];
  };
  jobs = [];
  mails = [];
  events = [];
  cookies = [];
  request_user = none;
}

abbrev pub ann : User
ann = record {
  id = "1";
  email = "ann@x.org";
  password = "hpw";
  full_name = none;
  username = none;
  bio = none;
  photo_url = none;
  is_published = false;
  role = none;
  status = active;
  auth_provider = AuthProvider.email;
  is_verified = true;
  onboarding_complete = true;
  preferences = record { mode = none; color_theme = none };
  otp_hash = none;
  otp_expires_at = none;
  last_login_ip = none;
  created_at = 0;
}
