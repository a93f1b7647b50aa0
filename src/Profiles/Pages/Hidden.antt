-- ===== src/Profiles/Pages/Hidden.antt =====
-- A page says nothing of what its owner has switched off.
use open_profile_be.Entities.Content.{
  BioSection, CtaSection, LinksSection, ProfileContent, ProjectsSection,
}
use open_profile_be.Entities.Pages.{
  Award, Education, Profile, ProfileComponent, Skill, WorkExperience,
}
use open_profile_be.Entities.PublicProfiles.{PublicProfile}
use open_profile_be.Prelude.{
  Bool, List, Option, String, ap, false, inl, inr, map, some, sym, true, ◌∙◌, ◌≡◌, ◌⊎◌,
}
use open_profile_be.Profiles.Documents.{
  default_cta, default_links, default_projects, hidden_bio, hidden_cta, hidden_links,
  hidden_projects, merged_content, no_style, or_empty, over_bio, over_links, over_projects,
  resolved_cta, unless_disabled,
}
use open_profile_be.Profiles.Pages.{
  if_enabled, is_enabled, public_award, public_education, public_skill, public_work_experience,
  serialize, shown_sections,
}

if_enabled-same :
    {A : Type 0} (b : Bool) (xs ys : List A)
    → (b ≡ false) ⊎ (xs ≡ ys)
    → if_enabled b xs ≡ if_enabled b ys
if_enabled-same b xs ys (inl off) =
    ap (λ c. if_enabled c xs) off ∙ ap (λ c. if_enabled c ys) (sym off)
if_enabled-same b xs ys (inr same) = ap (if_enabled b) same

unless_disabled-same :
    {A : Type 0} (b : Bool) (blank : A) (old new : Option A)
    → (b ≡ false) ⊎ (old ≡ new)
    → unless_disabled b blank old ≡ unless_disabled b blank new
unless_disabled-same b blank old new (inl off) =
    ap (λ c. unless_disabled c blank old) off ∙ ap (λ c. unless_disabled c blank new) (sym off)
unless_disabled-same b blank old new (inr same) = ap (unless_disabled b blank) same

lift_same : {A B : Type 0} {P : Type 0} (f : A → B) (a b : A) → P ⊎ (a ≡ b) → P ⊎ (f a ≡ f b)
lift_same f a b (inl h) = inl h
lift_same f a b (inr e) = inr (ap f e)

abbrev with_bio : Option BioSection → PublicProfile → PublicProfile
with_bio o g = record g { content = record (g.content) { bio_part = o } }

abbrev with_links : Option LinksSection → PublicProfile → PublicProfile
with_links o g = record g { content = record (g.content) { links_part = o } }

abbrev with_cta : Option CtaSection → PublicProfile → PublicProfile
with_cta o g = record g { content = record (g.content) { cta_part = o } }

abbrev with_projects : Option ProjectsSection → PublicProfile → PublicProfile
with_projects o g = record g { content = record (g.content) { projects_part = o } }

-- The biography's part of the content, from what is stored and the text of the profile.
abbrev bio_document : Option BioSection → Option String → Option BioSection
bio_document part bio_text =
    some (
      over_bio part (record { visible = some true; content = or_empty bio_text; style = no_style }))

same_bio :
    {P : Type 0} (part part' : Option BioSection) (bio_text bio_text' : Option String)
    → P ⊎ ((part ≡ part') × (bio_text ≡ bio_text'))
    → P ⊎ (bio_document part bio_text ≡ bio_document part' bio_text')
same_bio part part' bio_text bio_text' (inl off) = inl off
same_bio part part' bio_text bio_text' (inr (e, e')) =
    inr (ap (λ o. bio_document o bio_text) e ∙ ap (bio_document part') e')

module _ (base : Profile) (c : ProfileContent) (components : List ProfileComponent) where
  -- A profile with its content.
  abbrev stored : Profile
  stored = record base { content = some c }

  abbrev enabled : String → Bool
  enabled type = is_enabled stored components type

  abbrev Off : String → Type 0
  Off type = enabled type ≡ false

  -- Of two profiles with the same fields but for these, the pages are the same: the rows of skills,
  -- education, work experience and awards, and the biography, links, projects and CTA parts of the
  -- content, with the text of the biography. Each of these is the same, or its section is switched
  -- off. The other parts of the content are the same: those of work experience, education and
  -- skills, which hold the switches and the look of these sections, stay on the page.
  pub serialize-hides :
      (skills skills' : List Skill) (education education' : List Education)
      (work work' : List WorkExperience) (awards awards' : List Award) (b' : Option BioSection)
      (l' : Option LinksSection) (j' : Option ProjectsSection) (k' : Option CtaSection)
      (bio_text : Option String)
      → Off "skills" ⊎ (skills ≡ skills')
      → Off "education" ⊎ (education ≡ education')
      → Off "work_experience" ⊎ (work ≡ work')
      → Off "awards" ⊎ (awards ≡ awards')
      → Off "bio" ⊎ ((c.bio_part ≡ b') × (base.bio ≡ bio_text))
      → Off "links" ⊎ (c.links_part ≡ l')
      → Off "projects" ⊎ (c.projects_part ≡ j')
      → Off "cta" ⊎ (c.cta_part ≡ k')
      → serialize stored skills education components work awards
        ≡ serialize
            (record stored {
              bio = bio_text;
              content =
                  some (record c {
                    bio_part = b';
                    links_part = l';
                    projects_part = j';
                    cta_part = k';
                  });
            })
            skills'
            education'
            components
            work'
            awards'
  unfolding serialize is_enabled merged_content shown_sections
  serialize-hides skills skills' education education' work work' awards awards' b' l' j' k' bio_text
        s e w a b l j k =
      let last = serialize stored skills' education' components work' awards' in
      let projects_new =
        unless_disabled (enabled "projects") hidden_projects
          (some (over_projects j' default_projects)) in
      let bio_new = unless_disabled (enabled "bio") (hidden_bio base) (bio_document b' bio_text) in
      let links_new =
        unless_disabled (enabled "links") hidden_links (some (over_links l' default_links)) in
      ap (λ o. record (serialize stored skills education components work awards) { skills = o })
        (if_enabled-same (enabled "skills") (map public_skill skills) (map public_skill skills')
          (lift_same (map public_skill) skills skills' s))
      ∙ ap
          (λ o. record (serialize stored skills' education components work awards) {
            education = o;
          })
          (if_enabled-same (enabled "education") (map public_education education)
            (map public_education education')
            (lift_same (map public_education) education education' e))
      ∙ ap
          (λ o. record (serialize stored skills' education' components work awards) {
            work_experience = o;
          })
          (if_enabled-same (enabled "work_experience") (map public_work_experience work)
            (map public_work_experience work')
            (lift_same (map public_work_experience) work work' w))
      ∙ ap
          (λ o. record (serialize stored skills' education' components work' awards) { awards = o })
          (if_enabled-same (enabled "awards") (map public_award awards) (map public_award awards')
            (lift_same (map public_award) awards awards' a))
      ∙ ap (λ o. with_bio o last)
          (unless_disabled-same (enabled "bio") (hidden_bio base) (bio_document c.bio_part base.bio)
            (bio_document b' bio_text) (same_bio c.bio_part b' base.bio bio_text b))
      ∙ ap (λ o. with_links o (with_bio bio_new last))
          (unless_disabled-same (enabled "links") hidden_links
            (some (over_links c.links_part default_links)) (some (over_links l' default_links))
            (lift_same (λ o. some (over_links o default_links)) c.links_part l' l))
      ∙ ap (λ o. with_projects o (with_links links_new (with_bio bio_new last)))
          (unless_disabled-same (enabled "projects") hidden_projects
            (some (over_projects c.projects_part default_projects))
            (some (over_projects j' default_projects))
            (lift_same (λ o. some (over_projects o default_projects)) c.projects_part j' j))
      ∙ ap
          (λ o.
            with_cta o (with_projects projects_new (with_links links_new (with_bio bio_new last))))
          (unless_disabled-same (enabled "cta") (hidden_cta base)
            (some (resolved_cta c.cta_part (default_cta base)))
            (some (resolved_cta k' (default_cta base)))
            (lift_same (λ o. some (resolved_cta o (default_cta base))) c.cta_part k' k))
