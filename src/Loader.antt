-- ===== src/Loader.antt =====
-- native/src/internal/shared_library.hpp: the wrapper around the dynamic loader. What `dlopen`,
-- `dlsym` and `dlerror` answer is an argument.
use ams_gra_mel_bridge.Prelude.{
  ℕ, Bool, ◌||◌, not, Option, none, some, List, if◌then◌else◌, is_some, codes,
}
use ams_gra_mel_bridge.Provider.{Call, returned, threw, bad_alloc, exception}

-- The answers of the loader: whether the wrapper can be allocated, the handle and the message of
-- `dlopen`, and for each symbol the message and whether the address is not null.
pub record Loader : Type 0 where
  pub allocates : Bool
  pub handle : Bool
  pub load_error : Option (List ℕ)
  pub symbol_error : List ℕ → Option (List ℕ)
  pub address : List ℕ → Bool

abbrev or_text : Option (List ℕ) → List ℕ → List ℕ
or_text none text = text
or_text (some message) text = message

-- The constructor, behind `make_unique` or `make_shared`.
unfoldable pub shared_library : Loader → Call (Unit {0})
shared_library l =
    if not l.allocates
    then threw bad_alloc
    else if l.handle
    then returned tt
    else threw (exception (some (or_text l.load_error (codes "dlopen failed"))))

unfoldable pub symbol : Loader → List ℕ → Call (Unit {0})
symbol l name =
    if is_some (l.symbol_error name) || not (l.address name)
    then threw (exception (some (or_text (l.symbol_error name) (codes "symbol not found"))))
    else returned tt
