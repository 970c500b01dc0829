-- ===== src/Server/Python.antt =====
-- The operations of Python's `str` that the server uses.
use nova_server_manager.Common.{
  ℕ, ◌-◌, Bool, ◌||◌, ◌&&◌, leb, ◌==◌, Text, [], ◌∷◌, reverse, length, drop, if◌then◌else◌,
}

-- `text[-n:]`
abbrev pub last_chars : ℕ → Text → Text
last_chars n t = drop (length t - n) t

-- `c.isspace()`
abbrev pub is_py_space : ℕ → Bool
is_py_space c =
    leb 9 c && leb c 13
    || leb 28 c && leb c 32
    || c == 133
    || c == 160
    || c == 5760
    || leb 8192 c && leb c 8202
    || c == 8232
    || c == 8233
    || c == 8239
    || c == 8287
    || c == 12288

abbrev pub lstrip : (ℕ → Bool) → Text → Text
lstrip p [] = []
lstrip p (c ∷ s) = let rest = lstrip p s in if p c then rest else c ∷ s

abbrev pub rstrip : (ℕ → Bool) → Text → Text
rstrip p s = reverse (lstrip p (reverse s))

-- `text.strip()`
unfoldable pub strip : Text → Text
strip s = rstrip is_py_space (lstrip is_py_space s)
