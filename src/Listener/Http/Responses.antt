-- ===== src/Listener/Http/Responses.antt =====
-- src/listener/http/responses.c: the responses that all HTTP listeners share, and their counter.
--
-- A response is the list of its headers; `none` is one that was not made or is destroyed. `create` is what
-- MHD_create_response_from_buffer makes of an empty buffer.
use n2kafka.Prelude.{ℕ, zero, suc, ◌≡◌, refl, Option, none, some, List, [], ◌∷◌, ◌++◌, Bytes, codes}
use n2kafka.Prelude.Int.{ℤ, pos, negsuc, minus_one}

abbrev pub Headers : Type 0
Headers = List (Bytes × Bytes)

-- http_responses
pub record HttpResponses : Type 0 where
  pub empty_response : Option Headers
  pub method_not_allowed_allow_get_post : Option Headers
  pub method_not_allowed_allow_post : Option Headers
  pub unauthorized : Option Headers
  pub listeners_counter : ℤ

-- c + 1 and c - 1 of an int
abbrev pub count_up : ℤ → ℤ
count_up (pos n) = pos (suc n)
count_up (negsuc zero) = pos 0
count_up (negsuc (suc n)) = negsuc n

abbrev pub count_down : ℤ → ℤ
count_down (pos zero) = minus_one
count_down (pos (suc n)) = pos n
count_down (negsuc n) = negsuc (suc n)

-- MHD_add_response_header, which refuses NULL.
abbrev pub add_header : Option Headers → Bytes → Bytes → Option Headers
add_header none name value = none
add_header (some headers) name value = some (headers ++ (name, value) ∷ [])

abbrev pub make_responses : Option Headers → ℤ → HttpResponses
make_responses create counter = record {
  empty_response = create;
  method_not_allowed_allow_get_post = add_header create (codes "Allow") (codes "GET, POST");
  method_not_allowed_allow_post = add_header create (codes "Allow") (codes "POST");
  unauthorized = add_header create (codes "WWW-Authenticate") (codes "Basic");
  listeners_counter = counter;
}

abbrev pub destroyed_responses : ℤ → HttpResponses
destroyed_responses counter = record {
  empty_response = none;
  method_not_allowed_allow_get_post = none;
  method_not_allowed_allow_post = none;
  unauthorized = none;
  listeners_counter = counter;
}

unfoldable pub responses_listener_counter_incref : Option Headers → HttpResponses → HttpResponses
responses_listener_counter_incref create r = elim r.listeners_counter [
  | pos zero ↦ make_responses create (pos 1)
  | pos (suc n) ↦ record r { listeners_counter = pos (suc (suc n)) }
  | negsuc n ↦ record r { listeners_counter = count_up (negsuc n) }
]

unfoldable pub responses_listener_counter_decref : HttpResponses → HttpResponses
responses_listener_counter_decref r = elim (count_down r.listeners_counter) [
  | pos zero ↦ destroyed_responses (pos 0)
  | pos (suc n) ↦ record r { listeners_counter = pos (suc n) }
  | negsuc n ↦ record r { listeners_counter = negsuc n }
]

-- The responses for a number of running listeners.
abbrev pub responses_for : Option Headers → ℕ → HttpResponses
responses_for create zero = destroyed_responses (pos 0)
responses_for create (suc n) = make_responses create (pos (suc n))

pub incref-responses_for :
    (create : Option Headers) (n : ℕ)
    → responses_listener_counter_incref create (responses_for create n)
      ≡ responses_for create (suc n)
unfolding responses_listener_counter_incref
incref-responses_for create zero = refl
incref-responses_for create (suc n) = refl

pub decref-responses_for :
    (create : Option Headers) (n : ℕ)
    → responses_listener_counter_decref (responses_for create (suc n)) ≡ responses_for create n
unfolding responses_listener_counter_decref
decref-responses_for create zero = refl
decref-responses_for create (suc n) = refl
