-- ===== src/Listener/Http/Config/Passwords.antt =====
-- The password file of a listener: what http_config.c gives http_auth.c to search.
use n2kafka.Prelude.{ℕ, ◌≡◌, refl, sym, ap, ◌∙◌, true, some}
use n2kafka.Util.File.{Stream}
use n2kafka.Listener.Http.Auth.{http_auth_extract_data}
use n2kafka.Listener.Http.Auth.Laws.{weight}
use n2kafka.Listener.Http.Auth.Extract.{
  entries_of, all_but_last, http_auth_extract_data0-rc, http_auth_extract_data0-all_but_last,
}
use n2kafka.Listener.Http.Config.Secrets.{entries_image, htpasswd_size, htpasswd_fread}

-- For a file that reads without errors, the size is that of all its entries, and reading that many
-- bytes counts as a full read but writes all entries except the last.
pub htpasswd_fread-htpasswd_size :
    (f : Stream) (curr_off : ℕ)
    → f.position ≡ some curr_off
    → f.seek_set ≡ true
    → f.ended ≡ true
    → (htpasswd_size f ≡ weight (entries_of f.getline))
      × (htpasswd_fread (htpasswd_size f) f
          ≡ (entries_image (all_but_last (entries_of f.getline)), htpasswd_size f))
unfolding htpasswd_size htpasswd_fread http_auth_extract_data
htpasswd_fread-htpasswd_size f curr_off at back ended =
    let n = weight (entries_of f.getline) in
    let first : http_auth_extract_data 0 f ≡ ((http_auth_extract_data 0 f).0, some n) =
      rw (http_auth_extract_data, at, back, ended, http_auth_extract_data0-rc 0 f.getline) refl in
    let size : htpasswd_size f ≡ n = rw (htpasswd_size, first) refl in
    let second : http_auth_extract_data n f ≡ (all_but_last (entries_of f.getline), some n) =
      rw
        (
          http_auth_extract_data,
          at,
          back,
          ended,
          http_auth_extract_data0-rc n f.getline,
          http_auth_extract_data0-all_but_last f.getline,
        )
        refl in
    let image = entries_image (all_but_last (entries_of f.getline)) in
    let read : htpasswd_fread n f ≡ (image, n) = rw (htpasswd_fread, second) refl in
    (size, ap (λ (k : ℕ). htpasswd_fread k f) size ∙ read ∙ ap (λ (k : ℕ). (image, k)) (sym size))
