-- ===== src/Profiles/Publishing/Applied.antt =====
-- A publish puts the draft on the page, once.
use open_profile_be.Entities.Content.{LinkItem}
use open_profile_be.Entities.Pages.{Profile, ProfileDraft}
use open_profile_be.Exec.{Result, Returned, commit, continue, err, ok, pure, ◌>>◌}
use open_profile_be.Prelude.{
  refl, true, List, Option, String, any, ap, arith, eq_refl, false, first, first-passes,
  first-reject_self, key, map_where, none, or_else, reject, some, subst, sym, ◌&&◌, ◌∙◌, ◌≡◌,
}
use open_profile_be.Profiles.Drafts.{draft_of, is_draft_of, items_or_none, link_items}
use open_profile_be.Profiles.Links.{
  has_failures, is_visible_link, validate_cta_content, validate_link_items,
}
use open_profile_be.Profiles.Precedence.{Chosen, ChosenValue, or_else-Chosen, or_keep-ChosenValue}
use open_profile_be.Profiles.Publishing.{
  PublishResponse, publish_as, publish_draft, publish_found, publish_profile, publish_rows,
  published, published_profile,
}
use open_profile_be.Profiles.Sections.{invalidate_cache, is_of_user, profile_of_user}
use open_profile_be.Profiles.Visibility.{has_profile_id}
use open_profile_be.Services.{Services}
use open_profile_be.Services.Database.{first-replaced}
use open_profile_be.World.{Pages, World}
use open_profile_be.Redis

module _ (x : Services) (user : String) where
  -- A publish without a draft changes no table.
  publish_profile-idle :
      (p : Profile) (w : World x)
      → profile_of_user x user w ≡ some p
      → draft_of x p.id w ≡ none
      → (publish_profile x user w).1.pages ≡ w.pages
  unfolding publish_profile publish_rows invalidate_cache Redis.del
  publish_profile-idle p w owner idle = ground (arith, owner, idle)

module _ (x : Services) (user : String) (p : Profile) (d : ProfileDraft) (w : World x)
    (owner : profile_of_user x user w ≡ some p) (drafted : draft_of x p.id w ≡ some d) where
  abbrev items : List LinkItem
  items = items_or_none (or_else (link_items d.content) (link_items p.content))

  -- The two validations, and what is written where they pass.
  publish_draft-passed :
      Returned (publish_draft x p d w).0
      → (any is_visible_link items && has_failures x items ≡ false)
        × ((publish_draft x p d w).0 ≡ ok (published p.id p.username w.now))
        × ((publish_draft x p d w).1.redis ≡ w.redis)
        × ((publish_draft x p d w).1.redis_up ≡ w.redis_up)
        × (x.pages.profiles.rows (publish_draft x p d w).1.pages.profiles
            ≡ map_where
                (has_profile_id x p.id)
                (λ _. published_profile d w.now p)
                (x.pages.profiles.rows w.pages.profiles))
        × (x.pages.drafts.rows (publish_draft x p d w).1.pages.drafts
            ≡ reject (is_draft_of p.id) (x.pages.drafts.rows w.pages.drafts))
  unfolding validate_link_items validate_cta_content
  publish_draft-passed h = ground (
    arith,
    x.pages.profiles.rows-update (has_profile_id x p.id) (λ _. published_profile d w.now p)
        w.pages.profiles,
    x.pages.drafts.rows-delete (is_draft_of p.id) w.pages.drafts,
  )

  abbrev page : String
  page = key "profile:" (x.crypto.to_lower p.username)

  abbrev links_page : String
  links_page = key "profile:links:" (x.crypto.to_lower p.username)

  abbrev finish : Result PublishResponse × World x → Result PublishResponse × World x
  finish r =
      continue (commit r.0 w r.1).0
        (λ result. invalidate_cache x p.username >> (Redis.del x links_page >> pure result))
        (commit r.0 w r.1).1

  finished :
      (r : Result PublishResponse × World x)
      → Returned (finish r).0
      → Returned r.0
        × ((finish r).0 ≡ r.0)
        × ((finish r).1.pages ≡ r.1.pages)
        × (x.redis.entry (finish r).1.redis page ≡ none)
        × (x.redis.entry (finish r).1.redis links_page ≡ none)
  unfolding invalidate_cache Redis.del
  finished (ok a, v) h = ground (
    arith,
    x.redis.entry-del v.redis page page,
    x.redis.entry-del (x.redis.del v.redis page) links_page page,
    x.redis.entry-del (x.redis.del v.redis page) links_page links_page,
    eq_refl page,
    eq_refl links_page,
  )
  finished (err e, v) h = ground arith

  publish_profile_lem : publish_profile x user w ≡ finish (publish_draft x p d w)
  unfolding publish_profile publish_rows
  publish_profile_lem =
      ap (λ (o : Option Profile). publish_as x o w) owner
      ∙ ap (λ (o : Option ProfileDraft). finish (publish_found x p o w)) drafted

  publish_profile-rows :
      Returned (publish_profile x user w).0
      → ((publish_profile x user w).0 ≡ ok (published p.id p.username w.now))
        × (any is_visible_link items && has_failures x items ≡ false)
        × (x.pages.profiles.rows (publish_profile x user w).1.pages.profiles
            ≡ map_where
                (has_profile_id x p.id)
                (λ _. published_profile d w.now p)
                (x.pages.profiles.rows w.pages.profiles))
        × (x.pages.drafts.rows (publish_profile x user w).1.pages.drafts
            ≡ reject (is_draft_of p.id) (x.pages.drafts.rows w.pages.drafts))
        × (x.redis.entry (publish_profile x user w).1.redis page ≡ none)
        × (x.redis.entry (publish_profile x user w).1.redis links_page ≡ none)
  publish_profile-rows h =
      let f =
        finished (publish_draft x p d w)
          (subst (λ (r : Result PublishResponse × World x). Returned r.0) publish_profile_lem h) in
      let g = publish_draft-passed f.0 in
      let Goal : (Result PublishResponse × World x → Type 0) = (λ r.
        (r.0 ≡ ok (published p.id p.username w.now))
        × (any is_visible_link items && has_failures x items ≡ false)
        × (x.pages.profiles.rows r.1.pages.profiles
            ≡ map_where (has_profile_id x p.id) (λ _. published_profile d w.now p)
                (x.pages.profiles.rows w.pages.profiles))
        × (x.pages.drafts.rows r.1.pages.drafts
            ≡ reject (is_draft_of p.id) (x.pages.drafts.rows w.pages.drafts))
        × (x.redis.entry r.1.redis page ≡ none)
        × (x.redis.entry r.1.redis links_page ≡ none)) in
      subst Goal (sym publish_profile_lem) (
        f.1 ∙ g.1,
        g.0,
        ap (λ (a : Pages x). x.pages.profiles.rows a.profiles) f.2 ∙ g.4,
        ap (λ (a : Pages x). x.pages.drafts.rows a.drafts) f.2 ∙ g.5,
        f.3,
        f.4,
      )

  abbrev after : World x
  after = (publish_profile x user w).1

  -- A second publish after one that returned writes nothing.
  publish_profile-once :
      Returned (publish_profile x user w).0 → (publish_profile x user after).1.pages ≡ after.pages
  publish_profile-once h =
      let applied = publish_profile-rows h in
      let found = x.pages.profiles.find_one_lem (is_of_user user) w.pages.profiles in
      publish_profile-idle x user (published_profile d w.now p) after
        (x.pages.profiles.find_one_lem (is_of_user user) after.pages.profiles
          ∙ ap (first (is_of_user user)) applied.2
          ∙ first-replaced (λ (r : Profile). r.id) (is_of_user user) p (published_profile d w.now p)
              (x.pages.profiles.rows w.pages.profiles)
              (first-passes (is_of_user user) (x.pages.profiles.rows w.pages.profiles) p
                (sym found ∙ owner))
              (sym found ∙ owner))
        (x.pages.drafts.find_one_lem (is_draft_of p.id) after.pages.drafts
          ∙ ap (first (is_draft_of p.id)) applied.3
          ∙ first-reject_self (is_draft_of p.id) (x.pages.drafts.rows w.pages.drafts))

  -- The row of a published profile: the fields of the draft where it has them.
  pub record IsPublished (q : Profile) : Type 0 where
    pub bio : Chosen d.bio p.bio q.bio
    pub photo_url : Chosen d.photo_url p.photo_url q.photo_url
    pub content : Chosen d.content p.content q.content
    pub full_name : ChosenValue d.full_name p.full_name q.full_name
    pub theme_settings : Chosen d.theme_settings p.theme_settings q.theme_settings
    pub appearance : Chosen d.appearance p.appearance q.appearance
    pub is_published : q.is_published ≡ true
    pub published_at : q.published_at ≡ some w.now
    pub id : q.id ≡ p.id
    pub user_id : q.user_id ≡ p.user_id
    pub username : q.username ≡ p.username
    pub is_public : q.is_public ≡ p.is_public

  published_profile-IsPublished : IsPublished (published_profile d w.now p)
  published_profile-IsPublished = record {
    bio = or_else-Chosen d.bio p.bio;
    photo_url = or_else-Chosen d.photo_url p.photo_url;
    content = or_else-Chosen d.content p.content;
    full_name = or_keep-ChosenValue d.full_name p.full_name;
    theme_settings = or_else-Chosen d.theme_settings p.theme_settings;
    appearance = or_else-Chosen d.appearance p.appearance;
    is_published = refl;
    published_at = refl;
    id = refl;
    user_id = refl;
    username = refl;
    is_public = refl;
  }

  -- A publish by the owner of a profile with a draft that returned has saved the profile with the
  -- biography, photo, content, name, theme and appearance of the draft where it has them and else
  -- its own, as published now and otherwise as visible as before; it has deleted the draft, and
  -- dropped the cached page and the cached links. Where a link of the page is visible, every visible
  -- link passed its check.
  pub publish_profile-applied :
      Returned (publish_profile x user w).0
      → (q : Profile) × IsPublished q
        × ((publish_profile x user w).0 ≡ ok (published p.id p.username w.now))
        × (any is_visible_link items && has_failures x items ≡ false)
        × (x.pages.profiles.rows (publish_profile x user w).1.pages.profiles
            ≡ map_where (has_profile_id x p.id) (λ _. q) (x.pages.profiles.rows w.pages.profiles))
        × (x.pages.drafts.rows (publish_profile x user w).1.pages.drafts
            ≡ reject (is_draft_of p.id) (x.pages.drafts.rows w.pages.drafts))
        × (x.redis.entry (publish_profile x user w).1.redis page ≡ none)
        × (x.redis.entry (publish_profile x user w).1.redis links_page ≡ none)
  publish_profile-applied h =
      let (answer, passed, rows, drafts, page_gone, links_gone) = publish_profile-rows h in
      (
        published_profile d w.now p,
        published_profile-IsPublished,
        answer,
        passed,
        rows,
        drafts,
        page_gone,
        links_gone,
      )
