-- ===== src/Listener/Http/Auth/Tests.antt =====
-- A database with one entry, and the theorems at it.
use n2kafka.Prelude.{◌≡◌, refl, true, false, ◌++◌, codes, equal}
use n2kafka.Prelude.Run.{ret, running}
use n2kafka.Listener.Http.Auth.{http_authenticate}
use n2kafka.Listener.Http.Auth.Laws.{
  entry_tail, http_authenticate-first_user, http_authenticate-same_length,
}

http_authenticate-first_user_example :
    http_authenticate 1 true (codes "me") (codes "pw") (codes "me" ++ entry_tail (codes "pw"))
    ≡ ret (equal (codes "pw") (codes "pw"))
http_authenticate-first_user_example =
    http_authenticate-first_user (codes "me") (codes "pw") (codes "pw")
      ((refl, refl), ((refl, refl), tt)) 0

other_user : equal (codes "us") (codes "me") ≡ false
unfolding equal
other_user = refl

http_authenticate-same_length_example :
    http_authenticate 9 true (codes "us") (codes "pw") (codes "me" ++ entry_tail (codes "pw"))
    ≡ running
http_authenticate-same_length_example =
    http_authenticate-same_length (codes "me") (codes "pw") (codes "pw")
      ((refl, refl), ((refl, refl), tt)) 9 (codes "us") refl other_user
