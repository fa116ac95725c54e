-- ===== src/Session/Replies.antt =====
-- The replies of the server, as libEmailz/src/emailz.c spells them.
use spamass.Base.{Bytes, codes, ◌++◌}

abbrev pub reply_greeting : Bytes
reply_greeting = codes "220 mail.spamass.net ESMTP\r\n"

abbrev pub reply_helo : Bytes
reply_helo = codes "250 mail.spamass.net\r\n"

abbrev pub reply_ehlo_plain : Bytes
reply_ehlo_plain =
    codes "250-mail.spamass.net in the house\r\n250-SIZE 12345678\r\n250-8BITMIME\r\n"
    ++ codes "250-STARTTLS\r\n250 ENHANCEDSTATUSCODES\r\n"

abbrev pub reply_ehlo_secure : Bytes
reply_ehlo_secure =
    codes "250-mail.spamass.net in the house\r\n250-SIZE 12345678\r\n250-8BITMIME\r\n"
    ++ codes "250-AUTH PLAIN\r\n250 ENHANCEDSTATUSCODES\r\n"

abbrev pub reply_ok : Bytes
reply_ok = codes "250 Ok\r\n"

abbrev pub reply_recipient : Bytes
reply_recipient = codes "250 Recipient ok\r\n"

abbrev pub reply_enter_mail : Bytes
reply_enter_mail = codes "354 Enter mail, end with \".\" on a line by itself\r\n"

abbrev pub reply_accepted : Bytes
reply_accepted = codes "250 AAA14672 Message accepted for delivery\r\n"

abbrev pub reply_closing : Bytes
reply_closing = codes "221 closing connection\r\n"

abbrev pub reply_help : Bytes
reply_help =
    codes "214-2.3.0 Available commands:\r\n214-2.3.0\r\n"
    ++ codes "214-2.3.0 HELO, EHLO, MAIL FROM, RCPT TO, DATA\r\n"
    ++ codes "214-2.3.0 QUIT, RSET, NOOP, HELP, VRFY, STARTTLS\r\n214 2.3.0\r\n"

abbrev pub reply_vrfy : Bytes
reply_vrfy = codes "252 2.1.5 It doesn't hurt to try\r\n"

abbrev pub reply_authenticated : Bytes
reply_authenticated = codes "235 You are good to go\r\n"

abbrev pub reply_not_authenticated : Bytes
reply_not_authenticated = codes "535 Authentication failed; restarting authentication process\r\n"

abbrev pub reply_start_tls : Bytes
reply_start_tls = codes "220 Ready to start TLS\r\n"

abbrev pub reply_unsupported : Bytes
reply_unsupported = codes "502 Unsupported command\r\n"
