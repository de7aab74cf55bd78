-- ===== src/DataPlane/ErrorPage.antt =====
-- `cfErrorPage` of internal/dataplane/headers.go.
use localfront.Base.{ℕ, [], ◌∷◌, ◌++◌, ◌==◌, if◌then◌else◌}
use localfront.Text.{Bytes, codes}
use localfront.Num.{ℤ, format_int}
use localfront.Http.{Header, set}

abbrev escape_html_byte : ℕ → Bytes
escape_html_byte c =
    if c == b'&'
    then codes "&amp;"
    else if c == 39
    then codes "&#39;"
    else if c == b'<'
    then codes "&lt;"
    else if c == b'>'
    then codes "&gt;"
    else if c == b'"'
    then codes "&#34;"
    else c ∷ []

-- `html.EscapeString`
unfoldable pub escape_html : Bytes → Bytes
escape_html [] = []
escape_html (c ∷ s) = escape_html_byte c ++ escape_html s

unfoldable pub error_page_header : Bytes → Header
error_page_header request_id =
    let typed = set [] (codes "Content-Type") (codes "text/html") in
    let served = set typed (codes "Server") (codes "CloudFront") in
    let cached = set served (codes "X-Cache") (codes "Error from localfront") in
    set cached (codes "X-Amz-Cf-Id") request_id

unfoldable pub error_page_body : ℤ → Bytes → Bytes → Bytes
error_page_body status request_id message =
    codes
      "<!DOCTYPE HTML PUBLIC \"-//W3C//DTD HTML 4.01 Transitional//EN\" \"http://www.w3.org/TR/html4/loose.dtd\">\n"
    ++ (codes
          "<HTML><HEAD><META HTTP-EQUIV=\"Content-Type\" CONTENT=\"text/html; charset=iso-8859-1\">\n"
        ++ (codes "<TITLE>ERROR: The request could not be satisfied</TITLE>\n</HEAD><BODY>\n<H1>"
            ++ (format_int status
                ++ (codes
                      " ERROR</H1>\n<H2>The request could not be satisfied.</H2>\n<HR noshade size=\"1px\">\n"
                    ++ (escape_html message
                        ++ (codes "\n<BR clear=\"all\">\n"
                            ++ (codes
                                  "We can't connect to the server for this app or website at this time. This is emulated by localfront.\n"
                                ++ (codes
                                      "<BR clear=\"all\">\n<HR noshade size=\"1px\">\n<PRE>\nGenerated by localfront (CloudFront emulator)\nRequest ID: "
                                    ++ (escape_html request_id
                                        ++ codes
                                            "\n</PRE>\n<ADDRESS>\n</ADDRESS>\n</BODY></HTML>\n")))))))))
