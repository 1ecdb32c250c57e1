-- ===== src/Repository/Tests.antt =====
-- A quoted path.
use sbackup.Base.{◌≡◌, refl, some, none, false}
use sbackup.Repository.{shell_quote}
use sbackup.Repository.Quoting.{is_plain, unquote, unquote-shell_quote}

unquote-shell_quote_example : unquote false (shell_quote "/home/o'neil/id") ≡ some "/home/o'neil/id"
unquote-shell_quote_example = unquote-shell_quote "/home/o'neil/id"

-- What the shell would expand or split is refused outside quotes.
expansion : unquote false "$HOME" ≡ none
unfolding unquote is_plain
expansion = refl

separator : unquote false "a;b" ≡ none
unfolding unquote is_plain
separator = refl

tabulator : unquote false "a\tb" ≡ none
unfolding unquote is_plain
tabulator = refl
