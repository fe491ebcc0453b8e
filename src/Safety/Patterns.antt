-- ===== src/Safety/Patterns.antt =====
-- The patterns of core/safety.py that decide on the class of a shell command.
use baby.Common.{String, List, [], ◌∷◌}
use baby.Text.Search.{Unicode}
use baby.Text.Regex.{
  Regex, word_edge, text_start, text_end, star, not_after, ◌then◌, ◌or◌, opt, plus, lit, any_of,
  char_of, letter, space, non_space, dot,
}

-- `(^|\s|\"|')`
abbrev before : Regex
before = text_start or space or char_of "\"'"

-- `(^|\s)`
abbrev gap : Regex
gap = text_start or space

abbrev slash : Regex
slash = char_of "\\/"

abbrev exe : Regex
exe = opt (lit ".exe")

-- a program's name, with or without `.exe`
abbrev program : List String → Regex
program names = before then any_of names then exe then word_edge

abbrev pub system_processes : List String
system_processes =
    "csrss" ∷ "wininit" ∷ "winlogon" ∷ "lsass" ∷ "services" ∷ "svchost" ∷ "smss" ∷ "dwm" ∷ []

abbrev pub ps_token : Regex
ps_token = word_edge then any_of ("powershell" ∷ "pwsh" ∷ []) then exe then word_edge

abbrev pub encoded_flag : Regex
encoded_flag =
    gap then lit "-e" then opt (lit "c" or (lit "n" then star letter)) then (space or text_end)

abbrev pub precheck_deny : List Regex
precheck_deny =
    ((text_start or space or char_of ";|&(={\"'")
      then any_of ("invoke-expression" ∷ "iex" ∷ [])
      then word_edge)
    ∷ lit "frombase64string"
    ∷ (lit "download" then any_of ("string" ∷ "file" ∷ []) then star space then lit "(")
    ∷ []

abbrev pub protected_dir : Regex
protected_dir =
    (lit "c:" then plus slash then lit "windows")
    or (word_edge then lit "system32" then word_edge)
    or any_of
        ("program files" ∷ "$env:windir" ∷ "%windir%" ∷ "%systemroot%" ∷ "$env:systemroot" ∷ [])

abbrev pub root_token : Regex
root_token =
    before
    then ((letter then lit ":" then opt slash)
        or (lit "c:" then plus slash then lit "users" then opt slash))
    then (char_of "\"'" or (star space then text_end))

abbrev pub delete_verb : Regex
delete_verb = program ("remove-item" ∷ "del" ∷ "erase" ∷ "rd" ∷ "rmdir" ∷ "rm" ∷ [])

abbrev pub write_verb : Regex
write_verb =
    gap
    then any_of (
        "set-content" ∷ "add-content" ∷ "out-file" ∷ "new-item" ∷ "move-item" ∷ "copy-item"
        ∷ "rename-item" ∷ "attrib" ∷ "icacls" ∷ "takeown" ∷ [])
    then word_edge

abbrev pub kill_verb : Regex
kill_verb = program ("stop-process" ∷ "taskkill" ∷ "pskill" ∷ "kill" ∷ [])

abbrev pub system_proc : Regex
system_proc = word_edge then any_of system_processes then exe then word_edge

abbrev pub shutdown : Regex
shutdown = program ("stop-computer" ∷ "restart-computer" ∷ "shutdown" ∷ [])

abbrev pub shutdown_intent : Regex
shutdown_intent =
    (lit "shut" then star space then lit "down")
    or lit "restart"
    or lit "reboot"
    or (lit "power" then star space then lit "off")
    or (lit "switch" then star space then lit "off")
    or (lit "band" then plus space then lit "kar")
    or (lit "bandh" then plus space then lit "kar")

abbrev pub redirect : Unicode → Regex
redirect u = not_after u.is_digit then lit ">" then opt (lit ">")

abbrev pub redirect_protected : Regex
redirect_protected =
    lit ">"
    then opt (lit ">")
    then star space
    then opt (lit "\"")
    then star space
    then ((lit "c:" then plus slash then lit "windows")
        or (star non_space then lit "system32")
        or (lit "c:" then plus slash then lit "program files"))

abbrev pub segment_deny : List Regex
segment_deny =
    (before
      then lit "format"
      then opt (lit ".com" or lit ".exe")
      then plus space
      then letter
      then lit ":")
    ∷ program ("diskpart" ∷ "bcdedit" ∷ "mkfs" ∷ [])
    ∷ (program ("vssadmin" ∷ []) then star dot then lit "delete")
    ∷ (before then lit "cipher" then exe then plus space then lit "/w")
    ∷ (word_edge
        then lit "rm"
        then plus space
        then star (lit "-" then star letter then plus space)
        then opt (lit "-")
        then star letter
        then lit "r"
        then opt (lit "f")
        then star letter
        then plus space
        then lit "/"
        then (space or text_end))
    ∷ (word_edge
        then lit "reg"
        then exe
        then plus space
        then lit "delete"
        then plus space
        then opt (lit "\"")
        then any_of ("hklm" ∷ "hkcr" ∷ "hku" ∷ "hkey_local_machine" ∷ "hkey_classes_root" ∷ []))
    ∷ (word_edge
        then any_of ("remove-item" ∷ "remove-itemproperty" ∷ [])
        then word_edge
        then star dot
        then lit "hklm:")
    ∷ []

abbrev pub set_execution_policy : Regex
set_execution_policy = gap then lit "set-executionpolicy" then word_edge

abbrev pub ep_safe_scope : Regex
ep_safe_scope = lit "-scope" then plus space then any_of ("process" ∷ "currentuser" ∷ [])

-- `_CMD_C` up to its group of the command
abbrev pub cmd_c : Regex
cmd_c = word_edge then lit "cmd" then exe then plus space then lit "/c" then plus space

abbrev pub allow_first_tokens : List String
allow_first_tokens =
    "dir" ∷ "ls" ∷ "gci" ∷ "type" ∷ "cat" ∷ "gc" ∷ "echo" ∷ "write-output" ∷ "write-host" ∷ "whoami"
    ∷ "hostname" ∷ "systeminfo" ∷ "tasklist" ∷ "ipconfig" ∷ "ping" ∷ "tracert" ∷ "nslookup"
    ∷ "netstat" ∷ "pwd" ∷ "cd" ∷ "sl" ∷ "set-location" ∷ "get-location" ∷ "test-path"
    ∷ "select-string" ∷ "findstr" ∷ "where" ∷ "measure-object" ∷ "sort-object" ∷ "select-object"
    ∷ "where-object" ∷ "foreach-object" ∷ "format-table" ∷ "format-list" ∷ "out-string" ∷ "date"
    ∷ "help" ∷ "get-help" ∷ "tree" ∷ "ver" ∷ "time" ∷ "more" ∷ "clip" ∷ "hostname.exe" ∷ []

abbrev pub git_readonly : Regex
git_readonly =
    text_start
    then lit "git"
    then plus space
    then (any_of ("status" ∷ "log" ∷ "diff" ∷ "show" ∷ "branch" ∷ "remote" ∷ [])
        or (lit "stash" then plus space then lit "list")
        or any_of ("rev-parse" ∷ "describe" ∷ "blame" ∷ []))
    then word_edge

abbrev pub version_check : Regex
version_check =
    text_start
    then any_of (
        "python" ∷ "python3" ∷ "py" ∷ "pip" ∷ "pip3" ∷ "uv" ∷ "node" ∷ "npm" ∷ "git" ∷ "ruff"
        ∷ "ollama" ∷ [])
    then plus space
    then any_of ("--version" ∷ "-v" ∷ "version" ∷ [])
    then star space
    then text_end

abbrev pub pip_readonly : Regex
pip_readonly =
    text_start
    then (lit "pip" or lit "pip3" or (lit "uv" then plus space then lit "pip"))
    then plus space
    then any_of ("list" ∷ "show" ∷ "freeze" ∷ [])
    then word_edge
